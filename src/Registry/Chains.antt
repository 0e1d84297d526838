-- ===== src/Registry/Chains.antt =====
-- named_object_registry.h: every bucket holds a chain, and what the calls do to the chains.
use shm_next.Base.{
  ℕ, zero, suc, ◌+◌, ◌%◌, ◌≤◌, ◌<◌, ◌≡◌, refl, Bool, true, false, some, List, [], ◌∷◌, arith, ◌==◌,
  if◌then◌else◌, length, has, Distinct, update, word, Links, Links-frame, Bool-cases, inl, inr,
  eq→==, ==→eq, ◌∙◌, sym, ap,
}
use shm_next.Registry.{
  Registry, bucket_count, bucket_index, hash_name, matches, find_loop, visits, find_any, insert,
  initialize,
}

-- the number of headers in the first `n` chains
pub count : ℕ → (ℕ → List ℕ) → ℕ
count zero chains = 0
count (suc n) chains = count n chains + length (chains n)

count-le : (n i : ℕ) (chains : ℕ → List ℕ) → i < n → length (chains i) ≤ count n chains
unfolding count
count-le zero i chains lt = absurd (omega arith)
count-le (suc n) i chains lt = elim (Bool-cases (i == n)) [
  | inl e ↦ rw (==→eq i n e) (omega arith)
  | inr e ↦ omega (arith, count-le n i chains (ground arith))
]

count-out :
    (n i : ℕ) (chains : ℕ → List ℕ) (xs : List ℕ)
    → n ≤ i
    → count n (update chains i xs) ≡ count n chains
unfolding count
count-out zero i chains xs le = refl
count-out (suc n) i chains xs le =
    let e : (n == i) ≡ false = ground arith in rw (e, count-out n i chains xs (omega arith))

pub count-update :
    (n i : ℕ) (chains : ℕ → List ℕ) (xs : List ℕ)
    → i < n
    → count n (update chains i xs) + length (chains i) ≡ count n chains + length xs
unfolding count
count-update zero i chains xs lt = absurd (omega arith)
count-update (suc n) i chains xs lt = elim (Bool-cases (n == i)) [
  | inl e ↦ rw (e, count-out n i chains xs (omega (arith, ==→eq n i e)), ==→eq n i e) (omega arith)
  | inr e ↦ rw e (omega (arith, count-update n i chains xs (ground arith)))
]

-- The chain of bucket `i` is `chains i`: headers whose hash belongs there, each once.
pub record IsRegistry (r : Registry) (chains : ℕ → List ℕ) : Type 0 where
  pub links : (i : ℕ) → i < bucket_count → Links r.next (r.buckets i) (chains i)
  pub distinct : (i : ℕ) → i < bucket_count → Distinct (chains i)
  pub homes :
      (i p : ℕ) → i < bucket_count → has p (chains i) ≡ true → r.name_hash p % bucket_count ≡ i
  pub total : r.total_count ≡ count bucket_count chains
  pub bounded : r.total_count < word

-- the first header that passes the test, or null
abbrev pub first : (ℕ → Bool) → List ℕ → ℕ
first test [] = 0
first test (x ∷ xs) = if test x then x else first test xs

find_loop-first :
    (fuel : ℕ) (test : ℕ → Bool) (next : ℕ → ℕ) (curr : ℕ) (xs : List ℕ)
    → Links next curr xs
    → length xs < fuel
    → find_loop fuel test next curr ≡ some (first test xs)
unfolding find_loop
find_loop-first zero test next curr xs l f = absurd (omega arith)
find_loop-first (suc fuel) test next curr [] l f = rw (eq→== curr 0 l)
find_loop-first (suc fuel) test next curr (x ∷ xs) (e, pos, l) f =
    let z : (x == 0) ≡ false = ground arith in
    let rest = find_loop-first fuel test next (next x) xs l (omega arith) in
    elim (Bool-cases (test x)) [ inl t ↦ rw (e, z, t) refl | inr f ↦ rw (e, z, f) rest ]

module _ (r : Registry) (chains : ℕ → List ℕ) (is : IsRegistry r chains) where
  pub enough : (i : ℕ) → i < bucket_count → length (chains i) < visits r
  enough i lt = omega (arith, count-le bucket_count i chains lt, is.total)

  -- `find_any` ends, with the first header of the name's chain that has the name, or with null where
  -- none has.
  pub find_any-first :
      (name : List ℕ)
      → find_any r name
        ≡ some (first (matches r (hash_name name) name) (chains (bucket_index (hash_name name))))
  unfolding find_any
  find_any-first name =
      let lt : hash_name name % bucket_count < bucket_count = omega arith in
      find_loop-first (visits r) (matches r (hash_name name) name) r.next _ _ (is.links _ lt)
        (enough _ lt)

  abbrev home : ℕ → ℕ
  home header = bucket_index (r.name_hash header)

  -- the chains with that of the header replaced
  abbrev pub rechained : ℕ → List ℕ → ℕ → List ℕ
  rechained header xs = update chains (home header) xs

  pub home_lt : (header : ℕ) → home header < bucket_count
  home_lt header = omega arith

  -- `insert` of a header that no chain holds puts it in front of the chain of its hash.
  pub insert-IsRegistry :
      (header : ℕ)
      → 0 < header
      → ((i : ℕ) → i < bucket_count → has header (chains i) ≡ false)
      → r.total_count + 1 < word
      → IsRegistry (insert header r) (rechained header (header ∷ chains (home header)))
  unfolding insert
  insert-IsRegistry header pos out small =
      let self : (header == header) ≡ true = eq→== header header refl in
      record {
        links = λ i lt. elim (Bool-cases (i == home header)) [
          | inl e ↦
              rw (e, self)
                (
                  refl,
                  pos,
                  Links-frame r.next _ _ _ (is.links _ (home_lt header))
                      λ q j. ground (arith, out (home header)),
                )
          | inr e ↦ rw e (Links-frame r.next _ _ _ (is.links i lt) λ q j. ground (arith, out i))
        ];
        distinct = λ i lt. elim (Bool-cases (i == home header)) [
          | inl e ↦ rw e (out _ (home_lt header), is.distinct _ (home_lt header))
          | inr e ↦ rw e (is.distinct i lt)
        ];
        homes = λ i p lt. elim (Bool-cases (i == home header)) [
          | inl e ↦ rw e (λ j. elim (Bool-cases (p == header)) [
            | inl e' ↦ rw (==→eq p header e') (sym (==→eq i (home header) e))
            | inr e' ↦ is.homes _ p (home_lt header) (ground arith) ∙ sym (==→eq i (home header) e)
          ])
          | inr e ↦ rw e (is.homes i p lt)
        ];
        total = omega (
          arith,
          is.total,
          count-update bucket_count (home header) chains (header ∷ chains (home header))
              (home_lt header),
        );
        bounded = omega arith;
      }

count_nil : (n : ℕ) → count n (λ i. []) ≡ 0
unfolding count
count_nil zero = refl
count_nil (suc n) = omega (arith, count_nil n)

-- `initialize` empties every bucket.
pub initialize-IsRegistry : (r : Registry) → IsRegistry (initialize r) (λ i. [])
unfolding initialize
initialize-IsRegistry r = record {
  links = λ i lt. ground arith;
  distinct = λ i lt. tt;
  homes = λ i p lt j. ground arith;
  total = sym (count_nil bucket_count);
  bounded = omega arith;
}

matches-hash :
    (r : Registry) (hash : ℕ) (name : List ℕ) (p : ℕ)
    → matches r hash name p ≡ true
    → r.name_hash p ≡ hash
unfolding matches
matches-hash r hash name p m = ground arith

matches-insert :
    (r : Registry) (header hash : ℕ) (name : List ℕ) (p : ℕ)
    → matches (insert header r) hash name p ≡ matches r hash name p
unfolding matches insert
matches-insert r header hash name p = refl

-- After `insert` of a header that no chain holds, with the given name and its hash, `find_any` of the
-- name returns that header.
pub find_any-insert :
    (r : Registry) (chains : ℕ → List ℕ)
    → IsRegistry r chains
    → (header : ℕ) (name : List ℕ) → 0 < header
    → ((i : ℕ) → i < bucket_count → has header (chains i) ≡ false)
    → r.total_count + 1 < word
    → matches r (hash_name name) name header ≡ true
    → find_any (insert header r) name ≡ some header
find_any-insert r chains is header name pos out small m =
    let after = insert-IsRegistry r chains is header pos out small in
    let h = matches-hash r (hash_name name) name header m in
    let here : (bucket_index (hash_name name) == bucket_index (r.name_hash header)) ≡ true =
      eq→== _ _ (ap bucket_index (sym h)) in
    find_any-first (insert header r) _ after name
    ∙ rw (here, matches-insert r header (hash_name name) name header ∙ m) refl
