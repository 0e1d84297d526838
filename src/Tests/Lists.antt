-- ===== src/Tests/Lists.antt =====
-- The theorems on lists, applied to a list of two numbers; a node is given behind all nodes before.
use mathlib.Core.Path.{subst}
use mathlib.Core.Option.{some-injective}
use shm_next.Base.{
  ℕ, ◌+◌, ◌≡◌, refl, inl, inr, Bool, true, false, not, none, some, List, [], ◌∷◌, arith, has, ◌==◌,
  ltb, if◌then◌else◌, update, length, Distinct, ◌||◌, Bool-cases, ◌∙◌,
}
use shm_next.NodePool.{NodeAllocator, Pool}
use shm_next.SharedList.{State, emplace, erase}
use shm_next.SharedList.Calls
use shm_next.SharedList.Insertion.{IsList, Emplaced, emplace-Emplaced}
use shm_next.SharedList.Removal.{erase-IsList}
use shm_next.SharedList.Reversal.{reverse-IsList}
use shm_next.SharedList.Splicing.{sort}
use shm_next.SharedList.Sorting.{Rearranges, sort-IsList}

abbrev bump : NodeAllocator ℕ
bump = record {
  allocate = λ w. (some w, w + 0x100);
  construct = λ p w. (true, w);
  destroy = λ p w. w;
  deallocate = λ p w. w;
}

-- the number 13 cannot be copied
abbrev build : ℕ → ℕ → ℕ → Bool × ℕ
build x p w = (not (x == 13), w)

abbrev empty : Pool ℕ
empty = record {
  free_nodes = 0;
  cached_node_count = 0;
  node_pool_hits = 0;
  node_pool_allocations = 2;
  next = λ _. 0;
  world = 0x3000;
}

-- the numbers 20 and 10 in the nodes 0x1000 and 0x2000, the sentinel at 0x100
abbrev pair : State ℕ ℕ
pair = record {
  nodes = record {
    next = update (update (λ _. 0x100) 0x100 0x1000) 0x1000 0x2000;
    prev = update (update (λ _. 0x100) 0x100 0x2000) 0x2000 0x1000;
    value = update (update (λ _. none) 0x1000 (some 20)) 0x2000 (some 10);
  };
  list = record { sentinel = 0x100; size = 2; allocator = 7; node_pool = empty };
}

abbrev order : List ℕ
order = 0x1000 ∷ 0x2000 ∷ []

pair-IsList : IsList pair order []
pair-IsList = record {
  ring = (refl, refl, (refl, refl, (refl, refl)));
  distinct = (refl, (refl, tt));
  outside = refl;
  no_null = refl;
  size = refl;
  bounded = omega arith;
  pool = record { links = refl; distinct = tt; count = refl; bounded = omega arith };
  apart = λ q i. ground (arith, i);
}

emplace-Emplaced_example :
    Emplaced bump build pair (0x1000 ∷ []) (0x2000 ∷ []) [] 5 (emplace bump build 0x2000 5 pair)
emplace-Emplaced_example =
    emplace-Emplaced bump build pair (0x1000 ∷ []) (0x2000 ∷ []) [] 5 pair-IsList
      (λ node e.
        subst (λ k. has k (0 ∷ 0x100 ∷ 0x1000 ∷ 0x2000 ∷ []) ≡ false) (some-injective 0x3000 node e)
          refl)
      (omega arith) (omega arith)

erase-IsList_example :
    ((erase bump build 0x1000 pair).0 ≡ 0x2000)
    × ((erase bump build 0x1000 pair).1.nodes.value ≡ pair.nodes.value)
    × IsList (erase bump build 0x1000 pair).1 (0x2000 ∷ []) (0x1000 ∷ [])
erase-IsList_example = erase-IsList bump build pair [] (0x2000 ∷ []) [] 0x1000 pair-IsList

reverse-IsList_example :
    (s' : State ℕ ℕ) × (Calls.reverse pair ≡ some s')
    × (s'.nodes.value ≡ pair.nodes.value)
    × IsList s' (0x2000 ∷ 0x1000 ∷ []) []
reverse-IsList_example = reverse-IsList pair order [] pair-IsList

-- sorting by insertion
abbrev place : (ℕ → ℕ → Bool) → ℕ → List ℕ → List ℕ
place before x [] = x ∷ []
place before x (y ∷ ys) = if before y x then y ∷ place before x ys else x ∷ y ∷ ys

abbrev sorting : (ℕ → ℕ → Bool) → List ℕ → List ℕ
sorting before [] = []
sorting before (x ∷ xs) = place before x (sorting before xs)

has-place :
    (before : ℕ → ℕ → Bool) (x q : ℕ) (ys : List ℕ)
    → has q (place before x ys) ≡ ((q == x) || has q ys)
has-place before x q [] = refl
has-place before x q (y ∷ ys) = let r = has-place before x q ys in ground (arith, r)

length-place :
    (before : ℕ → ℕ → Bool) (x : ℕ) (ys : List ℕ) → length (place before x ys) ≡ length ys + 1
length-place before x [] = refl
length-place before x (y ∷ ys) = let r = length-place before x ys in ground (arith, r)

place-Distinct :
    (before : ℕ → ℕ → Bool) (x : ℕ) (ys : List ℕ)
    → has x ys ≡ false
    → Distinct ys
    → Distinct (place before x ys)
place-Distinct before x [] n d = (refl, tt)
place-Distinct before x (y ∷ ys) n (m, d) = elim (Bool-cases (before y x)) [
  | inl e ↦
      let r = has-place before x y ys in
      rw e (ground (arith, r, m, n), place-Distinct before x ys (ground (arith, n)) d)
  | inr e ↦ rw e (n, (m, d))
]

has-sorting : (before : ℕ → ℕ → Bool) (xs : List ℕ) (q : ℕ) → has q (sorting before xs) ≡ has q xs
has-sorting before [] q = refl
has-sorting before (x ∷ xs) q =
    let r = has-sorting before xs q in
    let p = has-place before x q (sorting before xs) in ground (arith, r, p)

length-sorting : (before : ℕ → ℕ → Bool) (xs : List ℕ) → length (sorting before xs) ≡ length xs
length-sorting before [] = refl
length-sorting before (x ∷ xs) =
    omega (arith, length-sorting before xs, length-place before x (sorting before xs))

sorting-Distinct :
    (before : ℕ → ℕ → Bool) (xs : List ℕ) → Distinct xs → Distinct (sorting before xs)
sorting-Distinct before [] d = tt
sorting-Distinct before (x ∷ xs) (n, d) =
    place-Distinct before x (sorting before xs) (has-sorting before xs x ∙ n)
      (sorting-Distinct before xs d)

sorting-Rearranges : Rearranges sorting
sorting-Rearranges = record {
  members = has-sorting;
  lengths = length-sorting;
  distinct = sorting-Distinct;
}

sort-IsList_example :
    (s' : State ℕ ℕ) × (sort sorting ltb pair ≡ some s')
    × (s'.nodes.value ≡ pair.nodes.value)
    × IsList s' (0x2000 ∷ 0x1000 ∷ []) []
sort-IsList_example = sort-IsList sorting ltb pair order [] sorting-Rearranges pair-IsList
