-- ===== src/Registry.antt =====
-- interprocess/allocator/detail/named_object_registry.h: the table of the named objects.
--
-- The members of the `NamedObjectHeader` at address p are `ptr p`, `name p` and so on, and the byte at
-- address q is `byte q`. A name that a caller passes is the list of its bytes. The chains of the
-- source have no bound; here a walk may visit one header more than the registry counts.
pub mod Chains
pub mod Unlink
use Prim.Native.Nat.{bit_xor}
use shm_next.Base.{
  ℕ, zero, suc, ◌+◌, ◌*◌, ◌/◌, ◌%◌, Bool, true, false, not, ◌&&◌, Option, none, some, List, [], ◌∷◌,
  ltb, ◌==◌, if◌then◌else◌, length, update, word, ◌+w◌, ◌-w◌,
}

pub data NamedObjectState : Type 0 where
  constructing ready destroying : NamedObjectState

abbrev pub is_ready : NamedObjectState → Bool
is_ready ready = true
is_ready _ = false

pub record Registry : Type 0 where
  pub buckets : ℕ → ℕ
  pub ready_count : ℕ
  pub total_count : ℕ
  pub reserved_count : ℕ
  pub ptr : ℕ → ℕ
  pub name : ℕ → ℕ
  pub next : ℕ → ℕ
  pub name_length : ℕ → ℕ
  pub name_hash : ℕ → ℕ
  pub state : ℕ → NamedObjectState
  pub byte : ℕ → ℕ

abbrev pub bucket_count : ℕ
bucket_count = 64

abbrev pub bucket_index : ℕ → ℕ
bucket_index hash = hash % bucket_count

unfoldable pub initialize : Registry → Registry
initialize r = record r {
  buckets = λ i. if ltb i bucket_count then 0 else r.buckets i;
  ready_count = 0;
  total_count = 0;
  reserved_count = 0;
}

unfoldable pub hash_loop : (hash : ℕ) → List ℕ → ℕ
hash_loop hash [] = hash
hash_loop hash (c ∷ cs) = hash_loop ((bit_xor hash c * 1099511628211) % word) cs

unfoldable pub hash_name : List ℕ → ℕ
hash_name name = hash_loop 1469598103934665603 name

-- `std::memcmp(p, name, length) == 0`
unfoldable pub same_bytes : (byte : ℕ → ℕ) → ℕ → List ℕ → Bool
same_bytes byte p [] = true
same_bytes byte p (c ∷ cs) = (byte p == c) && same_bytes byte (p +w 1) cs

unfoldable pub matches : Registry → (hash : ℕ) → List ℕ → ℕ → Bool
matches r hash name p =
    (r.name_hash p == hash) && (r.name_length p == length name) && same_bytes r.byte (r.name p) name

-- The loop of the walks over one chain: the first header that passes `test`, or null.
unfoldable pub find_loop : ℕ → (test : ℕ → Bool) → (next : ℕ → ℕ) → (curr : ℕ) → Option ℕ
find_loop zero test next curr = none
find_loop (suc visits) test next curr =
    let rest = find_loop visits test next (next curr) in
    if curr == 0 then some 0 else if test curr then some curr else rest

abbrev pub visits : Registry → ℕ
visits r = r.total_count + 1

unfoldable pub find_any : Registry → List ℕ → Option ℕ
find_any r name =
    let hash = hash_name name in
    find_loop (visits r) (matches r hash name) r.next (r.buckets (bucket_index hash))

unfoldable pub find_ready : Registry → List ℕ → Option ℕ
find_ready r name = elim (find_any r name) [
  | none ↦ none
  | some header ↦ some (if not (header == 0) && is_ready (r.state header) then header else 0)
]

-- the loop of `find_if` over the buckets, `left` of them to go
unfoldable pub find_if_loop : (left i : ℕ) → (predicate : ℕ → Bool) → Registry → Option ℕ
find_if_loop zero i predicate r = some 0
find_if_loop (suc left) i predicate r =
    let rest = find_if_loop left (i + 1) predicate r in
    elim (find_loop (visits r) predicate r.next (r.buckets i)) [
      | none ↦ none
      | some p ↦ if p == 0 then rest else some p
    ]

unfoldable pub find_if : (predicate : ℕ → Bool) → Registry → Option ℕ
find_if predicate r = find_if_loop bucket_count 0 predicate r

unfoldable pub find_ready_by_ptr : (ptr : ℕ) → Registry → Option ℕ
find_ready_by_ptr ptr r =
    find_if_loop bucket_count 0 (λ p. is_ready (r.state p) && (r.ptr p == ptr)) r

unfoldable pub insert : ℕ → Registry → Registry
insert header r =
    let index = bucket_index (r.name_hash header) in
    record r {
      next = update r.next header (r.buckets index);
      buckets = update r.buckets index header;
      total_count = r.total_count +w 1;
      ready_count = if is_ready (r.state header) then r.ready_count +w 1 else r.ready_count;
    }

unfoldable pub mark_ready : ℕ → Registry → Registry
mark_ready header r =
    if is_ready (r.state header)
    then r
    else record r { state = update r.state header ready; ready_count = r.ready_count +w 1 }

-- `if (... && ready_count > 0) --ready_count;`
abbrev pub less_ready : ℕ → Registry → ℕ
less_ready header r =
    if is_ready (r.state header) && ltb 0 r.ready_count then r.ready_count -w 1 else r.ready_count

unfoldable pub mark_not_ready : ℕ → NamedObjectState → Registry → Registry
mark_not_ready header state r = record r {
  ready_count = less_ready header r;
  state = update r.state header state;
}

-- The links without `curr`, which follows `prev` in the chain of `index`.
abbrev pub unhook_next : (prev curr : ℕ) → (ℕ → ℕ) → ℕ → ℕ
unhook_next prev curr next =
    update (if prev == 0 then next else update next prev (next curr)) curr 0

abbrev pub unhook_buckets : (index prev curr : ℕ) → Registry → ℕ → ℕ
unhook_buckets index prev curr r =
    if prev == 0 then update r.buckets index (r.next curr) else r.buckets

unfoldable pub unhook : (index prev curr : ℕ) → Registry → Registry
unhook index prev curr r = record r {
  next = unhook_next prev curr r.next;
  buckets = unhook_buckets index prev curr r;
  ready_count = less_ready curr r;
  total_count = if ltb 0 r.total_count then r.total_count -w 1 else r.total_count;
}

unfoldable pub unlink_loop : ℕ → (index target prev curr : ℕ) → Registry → Option Registry
unlink_loop zero index target prev curr r = none
unlink_loop (suc visits) index target prev curr r =
    let rest = unlink_loop visits index target curr (r.next curr) r in
    if curr == 0 then some r else if curr == target then some (unhook index prev curr r) else rest

unfoldable pub unlink : ℕ → Registry → Option Registry
unlink target r =
    let index = bucket_index (r.name_hash target) in
    if target == 0 then some r else unlink_loop (visits r) index target 0 (r.buckets index) r

unfoldable pub reserve : ℕ → Registry → Registry
reserve count r = record r {
  reserved_count = if ltb r.reserved_count count then count else r.reserved_count;
}

unfoldable pub shrink_to_fit : Registry → Registry
shrink_to_fit r = record r { reserved_count = r.total_count }
