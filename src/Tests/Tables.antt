-- ===== src/Tests/Tables.antt =====
-- The theorems on hash tables, applied to a table with two entries of one bucket; the node allocator has
-- room for one node.
use mathlib.Core.Option.{some-injective}
use shm_next.Base.{
  ℕ, ◌+◌, ◌<◌, ◌≡◌, refl, inl, inr, ◌⊎◌, Bool, true, false, not, ◌&&◌, none, some, List, [], ◌∷◌,
  arith, has, ◌==◌, ==→eq, ltb, if◌then◌else◌, update, Bool-cases, ◌∙◌, sym, ap,
}
use shm_next.NodePool.{NodeAllocator, Pool}
use shm_next.HashTable.{Table, BucketAllocator, Loads, bucket_of}
use shm_next.HashTable.Calls.{done, insert_value, erase_key, contains, rehash}
use shm_next.HashTable.Buckets.{Bucketed}
use shm_next.HashTable.Invariant.{IsHash, IsTable}
use shm_next.HashTable.Rehashing.{Rehash, BrokenOff, rehash-Rehash}
use shm_next.HashTable.Insertion.{Insert, insert_value-Insert}
use shm_next.HashTable.Erasure.{Erased, erase_key-Erased, contains-erase_key}

abbrev one_node : NodeAllocator ℕ
one_node = record {
  allocate = λ w. (if w == 0 then some 0x3000 else none, w + 1);
  construct = λ p w. (true, w);
  destroy = λ p w. w;
  deallocate = λ p w. w;
}

-- the number 13 cannot be a value
abbrev build : ℕ × ℕ → ℕ → ℕ → Bool × ℕ
build kv p w = (not (kv.1 == 13), w)

abbrev arrays : BucketAllocator ℕ
arrays = record { allocate = λ c w. (some (0x8000, λ _. 7), w); deallocate = λ p c w. w }

-- at most one element for a bucket
abbrev loads : Loads
loads = record { above = λ size count. ltb count size; required = λ size. size }

abbrev same : ℕ → ℕ
same k = k

abbrev empty_pool : Pool ℕ
empty_pool = record {
  free_nodes = 0;
  cached_node_count = 0;
  node_pool_hits = 0;
  node_pool_allocations = 2;
  next = λ _. 0;
  world = 0;
}

-- the keys 3 and 5, both in the bucket 1
abbrev two : Table ℕ ℕ ℕ
two = record {
  nodes = record {
    bucket_next = update (λ _. 0) 0x2000 0x1000;
    bucket_prev = update (λ _. 0) 0x1000 0x2000;
    iter_next = update (λ _. 0) 0x1000 0x2000;
    iter_prev = update (λ _. 0) 0x2000 0x1000;
    value = update (update (λ _. none) 0x1000 (some (3, 30))) 0x2000 (some (5, 50));
  };
  buckets = 0x4000;
  array = update (λ _. 0) 1 0x2000;
  bucket_count = 2;
  size = 2;
  head = 0x1000;
  tail = 0x2000;
  node_pool = empty_pool;
}

abbrev order : List ℕ
order = 0x1000 ∷ 0x2000 ∷ []

same-IsHash : IsHash same ◌==◌
same-IsHash = record {
  same_hash = λ a b e. ==→eq a b e;
  reflexive = λ a. ground arith;
  symmetric = λ a b e. ground (arith, e);
  transitive = λ a b c e f. ground (arith, e, f);
}

abbrev chains_of : ℕ → List ℕ
chains_of i = if i == 1 then 0x2000 ∷ 0x1000 ∷ [] else []

in_bucket :
    (i q r : ℕ)
    → q ≡ r
    → (r ≡ 0x1000) ⊎ (r ≡ 0x2000)
    → bucket_of same (two.nodes.value r) 2 ≡ 1
    → has q (chains_of i) ≡ (has q order && (bucket_of same (two.nodes.value q) 2 == i))
in_bucket i q r e here b =
    let z : bucket_of same (two.nodes.value q) 2 ≡ 1 =
      ap (λ n. bucket_of same (two.nodes.value n) 2) e ∙ b in
    elim (Bool-cases (i == 1)) [
      | inl g ↦ rw g (ground (arith, e, here, z, g))
      | inr g ↦ rw g (ground (arith, e, here, z, g))
    ]

two-nodes : (q : ℕ) → has q order ≡ true → (q ≡ 0x1000) ⊎ (q ≡ 0x2000)
two-nodes q i = elim (Bool-cases (q == 0x1000)) [
  | inl e ↦ inl (==→eq q 0x1000 e)
  | inr e ↦ inr (==→eq q 0x2000 (ground (arith, i, e)))
]

two-apart : (a b : ℕ × ℕ) → some a ≡ some (3, 30) → some b ≡ some (5, 50) → (a.0 == b.0) ≡ true → ⊥
two-apart a b e f k =
    let e' : a.0 ≡ 3 = ap (λ z. z.0) (some-injective a (3, 30) e) in
    let f' : b.0 ≡ 5 = ap (λ z. z.0) (some-injective b (5, 50) f) in ground (arith, e', f', k)

two-Bucketed :
    Bucketed same two.nodes.value two.nodes.bucket_next two.nodes.bucket_prev 2 two.array chains_of
      (λ q. has q order)
two-Bucketed = record {
  chains = λ i li. elim (Bool-cases (i == 1)) [
    | inl e ↦ rw e (refl, omega arith, refl, (refl, omega arith, refl, refl))
    | inr e ↦ rw e refl
  ];
  members = λ i q li. elim (Bool-cases (q == 0x1000)) [
    | inl e ↦ in_bucket i q 0x1000 (==→eq q 0x1000 e) (inl refl) refl
    | inr e ↦ elim (Bool-cases (q == 0x2000)) [
      | inl f ↦ in_bucket i q 0x2000 (==→eq q 0x2000 f) (inr refl) refl
      | inr f ↦ elim (Bool-cases (i == 1)) [
        | inl g ↦ rw g (ground (arith, e, f))
        | inr g ↦ rw g (ground (arith, e, f))
      ]
    ]
  ];
  distinct =
      λ i li. elim (Bool-cases (i == 1)) [ inl e ↦ rw e (refl, (refl, tt)) | inr e ↦ rw e tt ];
}

two-IsTable : IsTable same ◌==◌ two order []
two-IsTable = record {
  iteration = (refl, omega arith, refl, (refl, omega arith, refl, refl));
  tail = refl;
  cs = chains_of;
  bucketed = two-Bucketed;
  distinct = (refl, (refl, tt));
  size = refl;
  bounded = omega arith;
  pool = record { links = refl; distinct = tt; count = refl; bounded = omega arith };
  apart = λ q i. ground (arith, i);
  entries = λ q i. elim (two-nodes q i) [
    | inl e ↦ ((3, 30), ap two.nodes.value e)
    | inr e ↦ ((5, 50), ap two.nodes.value e)
  ];
  keys = λ p q a b i j v w k. elim (two-nodes p i) [
    | inl e ↦ elim (two-nodes q j) [
      | inl f ↦ e ∙ sym f
      | inr f ↦
          absurd (two-apart a b (sym v ∙ ap two.nodes.value e) (sym w ∙ ap two.nodes.value f) k)
    ]
    | inr e ↦ elim (two-nodes q j) [
      | inl f ↦ absurd (
          two-apart b a (sym w ∙ ap two.nodes.value f) (sym v ∙ ap two.nodes.value e)
            (ground (arith, k)))
      | inr f ↦ e ∙ sym f
    ]
  ];
  present = refl;
  empty = λ e. absurd (omega (arith, e));
}

given : (count w : ℕ) (p : ℕ × (ℕ → ℕ)) → (arrays.allocate count w).0 ≡ some p → 0 < p.0
given count w p e =
    let f : 0x8000 ≡ p.0 = ap (λ z. z.0) (some-injective (0x8000, λ _. 7) p e) in omega (arith, f)

one_node-fresh : (w node : ℕ) → (one_node.allocate w).0 ≡ some node → has node (0 ∷ order) ≡ false
one_node-fresh w node e = elim (Bool-cases (w == 0)) [
  | inl z ↦ let f : 0x3000 ≡ node = some-injective 0x3000 node (rw z at e) in ground (arith, f)
  | inr z ↦ absurd (let f = rw z at e in ground (arith, f))
]

-- the hash throws for the key 5
abbrev throws_at_five : ℕ → Bool
throws_at_five k = k == 5

rehash-Rehash_example :
    Rehash same ◌==◌ one_node build arrays loads two order []
      (rehash same ◌==◌ one_node build arrays loads throws_at_five 16 two)
    ⊎ BrokenOff same ◌==◌ one_node build arrays loads throws_at_five two order
        (rehash same ◌==◌ one_node build arrays loads throws_at_five 16 two)
rehash-Rehash_example =
    rehash-Rehash same ◌==◌ one_node build arrays loads two order [] two-IsTable given
      throws_at_five 16

insert_value-Insert_example :
    Insert same ◌==◌ one_node build arrays loads two order []
      (7, 70)
      (insert_value same ◌==◌ one_node build arrays loads (7, 70) two)
insert_value-Insert_example =
    insert_value-Insert same ◌==◌ one_node build arrays loads two order [] two-IsTable same-IsHash
      given (λ u node r e. one_node-fresh u.node_pool.world node e) (omega arith) (omega arith)
      (7, 70)

erase_key-Erased_example : Erased same ◌==◌ one_node build arrays loads 3 two order []
erase_key-Erased_example =
    erase_key-Erased same ◌==◌ one_node build arrays loads two order [] two-IsTable same-IsHash 3

contains-erase_key_example :
    (n : ℕ) × (u : Table ℕ ℕ ℕ) × (erase_key same ◌==◌ one_node build arrays loads 5 two ≡ done n u)
    × (contains same ◌==◌ one_node build arrays loads 5 u ≡ some false)
contains-erase_key_example =
    contains-erase_key same ◌==◌ one_node build arrays loads two order [] two-IsTable same-IsHash 5
