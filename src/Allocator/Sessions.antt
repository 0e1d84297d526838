-- ===== src/Allocator/Sessions.antt =====
-- A client that takes and gives back memory in any order.
pub mod Safe
pub mod Goes
use shm_next.Base.{
  ℕ, ◌+◌, ◌-◌, ◌^◌, ◌≤◌, ◌<◌, ◌≡◌, ◌≢◌, refl, true, false, Option, none, some, List, [], ◌∷◌, ◌⊎◌,
  arith, ltb, tests, ◌==◌, if◌then◌else◌, has, erase, Distinct, Bool-cases, inl, inr, ◌∙◌, sym, ap,
  ==→eq, has-erase_self, has-of-erase, erase-Distinct,
}
use shm_next.Allocator.{Counters, Allocator, Run, ok, throw, endless}
use shm_next.Allocator.Count
use shm_next.Allocator.Chain.{Chain-apart}
use shm_next.Allocator.Calls.{allocate, deallocate}
use shm_next.Allocator.Invariant.{IsValid}
use shm_next.Allocator.Pointers.{IsLive, Released, deallocate-Released, deallocate-IsLive}
use shm_next.Allocator.Take.{Served, counted-IsValid, allocate-total}

pub record Session : Type 0 where
  pub allocator : Allocator
  pub held : List ℕ

pub data Request : Type 0 where
  take : (size requested_alignment : ℕ) → Request
  give : ℕ → Request

-- The client gives back only what it holds. `none` stands for a call that does not end, or for an
-- exception out of `deallocate`.
unfoldable pub serve : Request → Session → Option Session
serve (take size n) s = elim (allocate size n s.allocator) [
  | ok p a ↦ some (record { allocator = a; held = p ∷ s.held })
  | throw e a ↦ some (record s { allocator = a })
  | endless ↦ none
]
serve (give p) s =
    if has p s.held
    then elim (deallocate p s.allocator) [
      | ok _ a ↦ some (record { allocator = a; held = erase p s.held })
      | throw e a ↦ none
      | endless ↦ none
    ]
    else some s

unfoldable pub run : List Request → Session → Option Session
run [] s = some s
run (r ∷ rs) s = elim (serve r s) [ none ↦ none | some s' ↦ run rs s' ]

-- Sizes and alignments stay below 2 ^ 61.
abbrev pub Modest : List Request → Type 0
Modest [] = Unit {0}
Modest (take size n ∷ rs) = (0 < size) × (size ≤ 2 ^ 61) × (n ≤ 2 ^ 61) × Modest rs
Modest (give p ∷ rs) = Modest rs

-- the block that the header in front of `p` names
abbrev pub block_of : Allocator → ℕ → ℕ
block_of a p = a.header_block (p - 16)

pub record IsSafe (s : Session) (bs xs : List ℕ) : Type 0 where
  pub valid : IsValid s.allocator bs xs
  pub live : (p : ℕ) → has p s.held ≡ true → IsLive s.allocator bs (block_of s.allocator p) p
  pub apart :
      (p q : ℕ)
      → has p s.held ≡ true
      → has q s.held ≡ true
      → p ≢ q
      → block_of s.allocator p ≢ block_of s.allocator q
  pub distinct : Distinct s.held

module _ (s : Session) (bs xs : List ℕ) (safe : IsSafe s bs xs) where
  ordered :
      (p q : ℕ)
      → has p s.held ≡ true
      → has q s.held ≡ true
      → block_of s.allocator p < block_of s.allocator q
      → p + s.allocator.requested_size (p - 16) < q
  ordered p q i j lt =
      let l = safe.live p i in
      let l' = safe.live q j in
      let apart =
        Chain-apart s.allocator.size _ _ _ _ bs safe.valid.blocks.chain l.present l'.present lt in
      omega (arith, l.within, l'.behind, apart)

  -- In a safe session two payloads that the client holds do not overlap.
  pub IsSafe-disjoint :
      (p q : ℕ)
      → has p s.held ≡ true
      → has q s.held ≡ true
      → p ≢ q
      → (p + s.allocator.requested_size (p - 16) < q)
        ⊎ (q + s.allocator.requested_size (q - 16) < p)
  IsSafe-disjoint p q i j ne =
      elim (Bool-cases (ltb (block_of s.allocator p) (block_of s.allocator q))) [
        | inl lt ↦ inl (ordered p q i j (omega tests))
        | inr ge ↦ inr (ordered q p j i (omega (tests, safe.apart p q i j ne)))
      ]
