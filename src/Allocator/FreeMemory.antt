-- ===== src/Allocator/FreeMemory.antt =====
-- `get_free_memory`: the payload bytes of the free blocks.
use shm_next.Base.{
  ℕ, zero, suc, ◌+◌, ◌-◌, ◌≤◌, ◌<◌, ◌≡◌, refl, true, false, some, List, [], ◌∷◌, arith, ◌==◌, has,
  erase, Distinct, length, word, ◌+w◌, ◌-w◌, Bool-cases, inl, inr, eq→==, ==→eq, ◌∙◌, ap, Links,
  has-erase_self, has-of-erase, erase-Distinct,
}
use shm_next.Allocator.{Allocator, max_blocks}
use shm_next.Allocator.Calls.{free_memory_loop, get_free_memory}
use shm_next.Allocator.Chain.{Chain, Chain-Member, Chain-le}
use shm_next.Allocator.FreeList.Order.{Sorted-Distinct}
use shm_next.Allocator.Invariant.{IsValid, length-Listed}

-- what the blocks `xs` have room for behind their headers
abbrev pub payloads : (ℕ → ℕ) → List ℕ → ℕ
payloads size [] = 0
payloads size (x ∷ xs) = (size x - 32) + payloads size xs

payloads-erase :
    (size : ℕ → ℕ) (x : ℕ) (xs : List ℕ)
    → has x xs ≡ true
    → payloads size xs ≡ (size x - 32) + payloads size (erase x xs)
payloads-erase size x [] i = cc
payloads-erase size x (y ∷ xs) i = elim (Bool-cases (x == y)) [
  | inl hit ↦ rw (hit, ==→eq x y hit) refl
  | inr miss ↦ rw miss (omega (arith, payloads-erase size x xs (ground arith)))
]

-- Some of the blocks of a chain have room for no more bytes than the chain spans.
payloads-le :
    (size : ℕ → ℕ) (p e : ℕ) (bs xs : List ℕ)
    → Chain size p e bs
    → Distinct xs
    → ((q : ℕ) → has q xs ≡ true → has q bs ≡ true)
    → payloads size xs ≤ e - p
payloads-le size p e [] [] c d sub = omega arith
payloads-le size p e [] (x ∷ xs) c d sub = absurd (ground (arith, sub x))
payloads-le size p e (b ∷ bs) xs (h, l, m, c) d sub =
    let le = Chain-le size (b + size b) e bs c in
    elim (Bool-cases (has b xs)) [
      | inl i ↦
          let lost = has-erase_self b xs d in
          let rest =
            payloads-le size (b + size b) e bs (erase b xs) c (erase-Distinct b xs d)
              λ q j. ground (arith, sub q, has-of-erase b q xs j, lost) in
          omega (arith, payloads-erase size b xs i, rest, le, h, l)
      | inr out ↦
          let rest = payloads-le size (b + size b) e bs xs c d λ q j. ground (arith, sub q, out) in
          omega (arith, rest, le, h)
    ]

free_memory_loop-payloads :
    (a : Allocator) (fuel curr acc : ℕ) (xs : List ℕ)
    → Links a.next_free curr xs
    → length xs < fuel
    → ((q : ℕ) → has q xs ≡ true → (32 ≤ a.size q) × (a.size q < word))
    → acc + payloads a.size xs < word
    → free_memory_loop fuel a curr acc ≡ some (acc + payloads a.size xs)
unfolding free_memory_loop
free_memory_loop-payloads a zero curr acc xs l f large small = absurd (omega arith)
free_memory_loop-payloads a (suc fuel) curr acc [] l f large small =
    let e : acc + 0 ≡ acc = omega arith in rw (eq→== curr 0 l, e)
free_memory_loop-payloads a (suc fuel) curr acc (x ∷ xs) (h, pos, l) f large small =
    let z : (x == 0) ≡ false = ground arith in
    let (lo, hi) = large x (ground arith) in
    let w : a.size x -w 32 ≡ a.size x - 32 = omega arith in
    let w' : acc +w (a.size x - 32) ≡ acc + (a.size x - 32) = omega arith in
    let rest =
      free_memory_loop-payloads a fuel (a.next_free x) (acc + (a.size x - 32)) xs l (omega arith)
        (λ q j. large q (ground arith)) (omega arith) in
    let e : acc + (a.size x - 32 + payloads a.size xs)
        ≡ acc + (a.size x - 32) + payloads a.size xs =
      omega arith in
    rw (h, z, w, w', e) rest

-- In a valid state `get_free_memory` returns the payload bytes of all free blocks, headers not counted.
pub get_free_memory-payloads :
    (a : Allocator) (bs xs : List ℕ)
    → IsValid a bs xs
    → get_free_memory a ≡ some (payloads a.size xs)
unfolding get_free_memory
get_free_memory-payloads a bs xs v =
    let d = Sorted-Distinct a.size xs v.listed.sorted in
    let le = payloads-le a.size _ _ bs xs v.blocks.chain d v.listed.within in
    free_memory_loop-payloads a (max_blocks a + 1) a.free_list_head 0 xs v.listed.links
      (length-Listed a bs xs v.blocks v.listed)
      (λ q j.
        let m = Chain-Member a.size _ _ q bs v.blocks.chain (v.listed.within q j) in
        (m.large, omega (arith, m.below, v.blocks.small)))
      (omega (arith, le, v.blocks.small))
    ∙ ap some (omega arith)
