-- ===== src/Allocator/Take.antt =====
-- `allocate`: what a successful call returns and leaves behind, and when it fails.
use shm_next.Base.{
  ℕ, ◌+◌, ◌-◌, ◌%◌, ◌^◌, ◌≤◌, ◌<◌, ◌≡◌, ◌≢◌, true, false, List, ◌⊎◌, some, arith, tests, ◌==◌, has,
  erase, Bool-cases, inl, inr, ◌∙◌, sym, ap, ◌-w◌, has-erase_ne, has-erase_self,
}
use shm_next.Errors.{bad_alloc}
use shm_next.Allocator.{
  Counters, Allocator, Run, ok, throw, endless, max_blocks, put_header, put_next, put_free,
}
use shm_next.Allocator.Count
use shm_next.Allocator.Chain.{Chain-Member}
use shm_next.Allocator.Layout.{make_layout, normalize_alignment}
use shm_next.Allocator.Layout.Align.{normalize_alignment-IsNormal}
use shm_next.Allocator.Layout.Bounds.{Fits, make_layout-Fits}
use shm_next.Allocator.Calls.{allocate_from_block, allocate_loop, allocate}
use shm_next.Allocator.FreeList.{before, unlink, remove_free_block}
use shm_next.Allocator.FreeList.Links.{Links-frame, relink}
use shm_next.Allocator.FreeList.Order.{Sorted-Distinct}
use shm_next.Allocator.Invariant.{IsValid, remove_free_block-Listed, length-Listed}
use shm_next.Allocator.Split.{IsSplit, ExactBut, split_allocated_block-IsSplit}
use shm_next.Allocator.FirstFit.{fits, first_fit-some, first_fit-none, allocate_loop-first_fit}

-- After `allocate` has taken block `b` for `size` bytes at `p`.
pub record Allocated (a : Allocator) (size n : ℕ) (bs : List ℕ) (b p : ℕ) (a' : Allocator)
    : Type 0 where
  pub was_free : (has b bs ≡ true) × (a.is_free b ≡ true)
  pub now_taken : a'.is_free b ≡ false
  pub behind : b + 48 ≤ p
  pub within : p + size ≤ b + a'.size b
  pub aligned : p % n ≡ 0
  pub block : a'.header_block (p - 16) ≡ b
  pub requested : a'.requested_size (p - 16) ≡ size
  pub others :
      (q : ℕ) → has q bs ≡ true → q ≢ b → (a'.size q ≡ a.size q) × (a'.is_free q ≡ a.is_free q)
  pub headers :
      (q : ℕ)
      → q ≢ p - 16
      → (a'.header_block q ≡ a.header_block q) × (a'.requested_size q ≡ a.requested_size q)
  pub base : a'.segment_base ≡ a.segment_base
  pub total : a'.segment_size ≡ a.segment_size

state_of : {A : Type 0} → Allocator → Run A → Allocator
state_of d (ok x a) = a
state_of d (throw e a) = a
state_of d endless = d

ok-injective : {A : Type 0} {x y : A} {a b : Allocator} → ok x a ≡ ok y b → a ≡ b
unfolding state_of
ok-injective {a} e = ap (state_of a) e

-- the last writes of `allocate_from_block`
abbrev taken : (b p size : ℕ) → Allocator → Allocator
taken b p size a = put_header (p - 16) b size (put_next b 0 (put_free b false a))

taken-IsValid :
    (a a' : Allocator) (b u p size : ℕ) (bs xs bs' xs' : List ℕ)
    → IsSplit a b u bs xs a' bs' xs'
    → ExactBut b a bs xs
    → has a.first_block bs ≡ true
    → IsValid (taken b p size a') bs' xs'
taken-IsValid a a' b u p size bs xs bs' xs' is ex first = record {
  blocks = is.blocks;
  listed = record {
    links = Links-frame a'.next_free _ _ xs' is.listed.links λ q i. ground (arith, is.unlisted);
    sorted = is.listed.sorted;
    within = is.listed.within;
  };
  exact = λ q i. elim (Bool-cases (q == b)) [
    | inl hit ↦ ground (arith, is.unlisted)
    | inr miss ↦ ground (arith, is.exact ex q i)
  ];
  first = rw is.keeps.first (is.still a.first_block first);
}

module _ (a : Allocator) (size n : ℕ) (bs xs : List ℕ) (v : IsValid a bs xs) (t p : ℕ) where
  allocate_from_block-Allocated :
      has t xs ≡ true
      → Fits t size n (make_layout t size n)
      → (make_layout t size n).total_size ≤ a.size t
      → remove_free_block t a ≡ ok tt (unlink p t a)
      → (a' : Allocator) × (bs' : List ℕ) × (xs' : List ℕ) × (allocate_from_block p t
            (make_layout t size n)
            size
            a
          ≡ ok (make_layout t size n).payload a')
        × IsValid a' bs' xs'
        × Allocated a size n bs t (make_layout t size n).payload a'
        × ((q : ℕ) → has q bs ≡ true → has q bs' ≡ true)
  unfolding allocate_from_block
  allocate_from_block-Allocated i f room rem =
      let (h, k, run, li) = remove_free_block-Listed a bs xs v.blocks v.listed t i in
      let e : unlink p t a ≡ relink h k a = ok-injective (sym rem ∙ run) in
      let in' = v.listed.within t i in
      let gone = has-erase_self t xs (Sorted-Distinct a.size xs v.listed.sorted) in
      let (a', bs', xs', cut, is) =
        split_allocated_block-IsSplit (relink h k a) t (make_layout t size n).total_size bs
          (erase t xs) v.blocks li in' gone (omega (arith, f.behind, f.within)) f.rounded room in
      let q : ℕ = (make_layout t size n).payload in
      let m = Chain-Member a.size _ _ t bs v.blocks.chain in' in
      let w : q -w 16 ≡ q - 16 = omega (arith, f.behind, f.within, m.below, v.blocks.small) in
      (
        taken t q size a',
        bs',
        xs',
        rw (e, cut, w),
        taken-IsValid (relink h k a) a' t _ q size bs (erase t xs) bs' xs' is
            (λ r j ne. has-erase_ne t r xs ne ∙ v.exact r j) v.first,
        record {
          was_free = (in', sym (v.exact t in') ∙ i);
          now_taken = ground arith;
          behind = f.behind;
          within = omega (arith, f.within, is.room.0);
          aligned = f.aligned;
          block = ground arith;
          requested = ground arith;
          others = λ r j ne. ground (arith, is.others r j ne);
          headers = λ r ne. ground (arith, is.keeps.headers, is.keeps.requests);
          base = is.keeps.base;
          total = is.keeps.total;
        },
        is.still,
      )

-- The state after a call that changes nothing but the counters is as valid.
pub counted-IsValid :
    (a : Allocator) (c : Counters) (bs xs : List ℕ)
    → IsValid a bs xs
    → IsValid (record a { counters = c }) bs xs
counted-IsValid a c bs xs v = record {
  blocks = v.blocks;
  listed = v.listed;
  exact = v.exact;
  first = v.first;
}

uncounted :
    {a a' : Allocator} {c : Counters} {size n b p : ℕ} {bs : List ℕ}
    → Allocated (record a { counters = c }) size n bs b p a'
    → Allocated a size n bs b p a'
uncounted al = record {
  was_free = al.was_free;
  now_taken = al.now_taken;
  behind = al.behind;
  within = al.within;
  aligned = al.aligned;
  block = al.block;
  requested = al.requested;
  others = al.others;
  headers = al.headers;
  base = al.base;
  total = al.total;
}

-- A served request: the free block `b`, the least that fits, was taken for it.
pub record Served (a : Allocator) (size n : ℕ) (bs : List ℕ) (r : Run ℕ) : Type 0 where
  pub b : ℕ
  pub p : ℕ
  pub after : Allocator
  pub blocks : List ℕ
  pub list : List ℕ
  pub returns : r ≡ ok p after
  pub valid : IsValid after blocks list
  pub allocated : Allocated a size n bs b p after
  pub kept : (q : ℕ) → has q bs ≡ true → has q blocks ≡ true
  pub best :
      (q : ℕ)
      → has q bs ≡ true
      → a.is_free q ≡ true
      → fits a size n q ≡ true
      → (q ≡ b) ⊎ (before a.size b q ≡ true)

-- A refused request: no free block fits, and nothing but the counters has changed.
pub record Refused (a : Allocator) (size n : ℕ) (bs : List ℕ) (r : Run ℕ) : Type 0 where
  pub throws : r ≡ throw bad_alloc (Count.failed (Count.allocate_call a))
  pub full : (q : ℕ) → has q bs ≡ true → a.is_free q ≡ true → fits a size n q ≡ false

module _ (a : Allocator) (size requested : ℕ) (bs xs : List ℕ) (v : IsValid a bs xs)
    (pos : 0 < size) (modest : size ≤ 2 ^ 61) where
  allocate_run :
      (n : ℕ)
      → normalize_alignment requested ≡ some n
      → allocate size requested a
        ≡ allocate_loop (max_blocks a + 1) size n 0 a.free_list_head (Count.allocate_call a)
  unfolding allocate
  allocate_run n e = ground arith

  allocate-for :
      (n : ℕ)
      → normalize_alignment requested ≡ some n
      → 16 ≤ n
      → n ≤ 2 ^ 62
      → Served a size n bs (allocate size requested a)
        ⊎ Refused a size n bs (allocate size requested a)
  allocate-for n e lo hi =
      let a₀ = Count.allocate_call a in
      let v₀ = counted-IsValid a a₀.counters bs xs v in
      rw (allocate_run n e)
        (elim (allocate_loop-first_fit a₀ size n (max_blocks a + 1) 0 a.free_list_head xs
          v.listed.links (length-Listed a bs xs v.blocks v.listed)
          (λ q i. sym (v.exact q (v.listed.within q i)) ∙ i)) [
            | inl (none', run) ↦ inr (record {
              throws = run;
              full = λ q i fr. first_fit-none a₀ size n xs q none' (v.exact q i ∙ fr);
            })
            | inr (t, p, found, run, rem) ↦
                let (i, good, best) = first_fit-some a₀ size n xs t v.listed.sorted found in
                let m = Chain-Member a.size _ _ t bs v.blocks.chain (v.listed.within t i) in
                let fit =
                  make_layout-Fits t size n (omega arith)
                    (omega (arith, m.below, v.blocks.small)) in
                let (a', bs', xs', run', v', al, st) =
                  allocate_from_block-Allocated a₀ size n bs xs v₀ t p i fit (omega tests)
                    (unfold remove_free_block in rem) in
                inl (record {
                  b = t;
                  p = (make_layout t size n).payload;
                  after = a';
                  blocks = bs';
                  list = xs';
                  returns = run ∙ run';
                  valid = v';
                  allocated = uncounted al;
                  kept = st;
                  best = λ q j fr f. best q (v.exact q j ∙ fr) f;
                })
          ])

  pub allocate-total :
      requested ≤ 2 ^ 61
      → (n : ℕ) × (requested ≤ n)
        × (n % 16 ≡ 0)
        × (Served a size n bs (allocate size requested a)
            ⊎ Refused a size n bs (allocate size requested a))
  allocate-total h =
      let (n, e, is) = normalize_alignment-IsNormal requested (omega arith) in
      (n, is.reaches, is.multiple, allocate-for n e is.bound (omega (arith, is.least)))
