-- ===== src/Allocator/Chain.antt =====
-- The physical chain: blocks that cover the segment without a gap, as the list of their addresses.
pub mod Edit
use shm_next.Base.{
  ℕ, suc, ◌+◌, ◌-◌, ◌*◌, ◌%◌, ◌≤◌, ◌<◌, ◌≡◌, ◌≢◌, refl, Bool, true, false, List, [], ◌∷◌, ◌||◌, ◌⊎◌,
  arith, ◌==◌, if◌then◌else◌, has, erase, Distinct, length, Bool-cases, inl, inr, ◌∙◌, sym, ==→eq,
}

-- From `p` on the sizes lead through `bs` to `e`.
abbrev pub Chain : (ℕ → ℕ) → (p e : ℕ) → List ℕ → Type 0
Chain size p e [] = p ≡ e
Chain size p e (x ∷ bs) = (p ≡ x) × (32 ≤ size x) × (size x % 16 ≡ 0) × Chain size (x + size x) e bs

-- What holds of every block of a chain.
pub record Member (size : ℕ → ℕ) (p e q : ℕ) : Type 0 where
  pub above : p ≤ q
  pub below : q + size q ≤ e
  pub large : 32 ≤ size q
  pub rounded : size q % 16 ≡ 0
  pub spaced : q % 16 ≡ p % 16

pub Chain-le : (size : ℕ → ℕ) (p e : ℕ) (bs : List ℕ) → Chain size p e bs → p + 32 * length bs ≤ e
Chain-le size p e [] c = omega arith
Chain-le size p e (x ∷ bs) (h, l, m, c) = omega (arith, Chain-le size (x + size x) e bs c)

pub Chain-Member :
    (size : ℕ → ℕ) (p e q : ℕ) (bs : List ℕ)
    → Chain size p e bs
    → has q bs ≡ true
    → Member size p e q
Chain-Member size p e q [] c i = cc
Chain-Member size p e q (x ∷ bs) (h, l, m, c) i = elim (Bool-cases (q == x)) [
  | inl hit ↦
      let le = Chain-le size (x + size x) e bs c in
      rw (==→eq q x hit) (record {
        above = omega arith;
        below = omega arith;
        large = l;
        rounded = m;
        spaced = omega arith;
      })
  | inr miss ↦
      let r = Chain-Member size (x + size x) e q bs c (ground arith) in
      record {
        above = omega arith;
        below = r.below;
        large = r.large;
        rounded = r.rounded;
        spaced = omega arith;
      }
]

module _ (size : ℕ → ℕ) (p e : ℕ) (bs : List ℕ) (c : Chain size p e bs) where
  -- no block stands before the start, or behind the end
  pub not-has-before : (q : ℕ) → q < p → has q bs ≡ false
  not-has-before q lt = elim (Bool-cases (has q bs)) [
    | inr out ↦ out
    | inl in' ↦ absurd (omega (arith, (Chain-Member size p e q bs c in').above))
  ]

  pub not-has-behind : (q : ℕ) → e ≤ q → has q bs ≡ false
  not-has-behind q le = elim (Bool-cases (has q bs)) [
    | inr out ↦ out
    | inl in' ↦ absurd (omega (arith, Chain-Member size p e q bs c in'))
  ]

pub Chain-congr :
    (size size' : ℕ → ℕ) (p e : ℕ) (bs : List ℕ)
    → Chain size p e bs
    → ((q : ℕ) → has q bs ≡ true → size' q ≡ size q)
    → Chain size' p e bs
Chain-congr size size' p e [] c same = c
Chain-congr size size' p e (x ∷ bs) (h, l, m, c) same =
    let s : size' x ≡ size x = same x (ground arith) in
    rw s (h, l, m, Chain-congr size size' (x + size x) e bs c λ q i. same q (ground arith))

pub Chain-Distinct : (size : ℕ → ℕ) (p e : ℕ) (bs : List ℕ) → Chain size p e bs → Distinct bs
Chain-Distinct size p e [] c = tt
Chain-Distinct size p e (x ∷ bs) (h, l, m, c) = (
  not-has-before size (x + size x) e bs c x (omega arith),
  Chain-Distinct size (x + size x) e bs c,
)

-- Blocks do not overlap.
pub Chain-apart :
    (size : ℕ → ℕ) (p e q r : ℕ) (bs : List ℕ)
    → Chain size p e bs
    → has q bs ≡ true
    → has r bs ≡ true
    → q < r
    → q + size q ≤ r
Chain-apart size p e q r [] c i j lt = cc
Chain-apart size p e q r (x ∷ bs) (h, l, m, c) i j lt = elim (Bool-cases (q == x)) [
  | inl hit ↦
      let eq = ==→eq q x hit in
      let behind = Chain-Member size (x + size x) e r bs c (ground arith) in rw eq behind.above
  | inr miss ↦
      let i' : has q bs ≡ true = ground arith in
      let behind = Chain-Member size (x + size x) e q bs c i' in
      Chain-apart size (x + size x) e q r bs c i' (ground arith) lt
]

-- Behind a block stands the next one, or the end.
pub Chain-next :
    (size : ℕ → ℕ) (p e q : ℕ) (bs : List ℕ)
    → Chain size p e bs
    → has q bs ≡ true
    → (q + size q ≡ e) ⊎ (has (q + size q) bs ≡ true)
Chain-next size p e q [] c i = cc
Chain-next size p e q (x ∷ []) (h, l, m, c) i = inl (ground arith)
Chain-next size p e q (x ∷ y ∷ bs) (h, l, m, c) i = elim (Bool-cases (q == x)) [
  | inl hit ↦ inr (ground arith)
  | inr miss ↦ elim (Chain-next size (x + size x) e q (y ∷ bs) c (ground arith)) [
    | inl end ↦ inl end
    | inr more ↦ inr (ground arith)
  ]
]

pub Chain-from :
    (size : ℕ → ℕ) (p e q : ℕ) (bs : List ℕ)
    → Chain size p e bs
    → (has q bs ≡ true) ⊎ (q ≡ e)
    → p ≤ q
Chain-from size p e q bs c (inl i) = (Chain-Member size p e q bs c i).above
Chain-from size p e q bs c (inr end) = omega (arith, Chain-le size p e bs c)

-- Before a block that is not the first stands another one.
pub Chain-previous :
    (size : ℕ → ℕ) (p e q : ℕ) (bs : List ℕ)
    → Chain size p e bs
    → (has q bs ≡ true) ⊎ (q ≡ e)
    → p < q
    → (r : ℕ) × (has r bs ≡ true) × (r + size r ≡ q)
Chain-previous size p e q [] c i lt = absurd (elim i [ inl h ↦ cc | inr h ↦ omega arith ])
Chain-previous size p e q (x ∷ bs) (h, l, m, c) i lt = elim (Bool-cases (q == x + size x)) [
  | inl hit ↦ (x, ground arith, omega (arith, ==→eq q (x + size x) hit))
  | inr miss ↦
      let i' : (has q bs ≡ true) ⊎ (q ≡ e) = ground arith in
      let le = Chain-from size (x + size x) e q bs c i' in
      let gt : x + size x < q = ground arith in
      let (r, j, s) = Chain-previous size (x + size x) e q bs c i' gt in (r, ground arith, s)
]
