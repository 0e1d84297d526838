-- ===== src/Allocator/Walks/Along.antt =====
-- The walks over the physical chain do what they are for where the chain is whole.
use shm_next.Base.{
  ℕ, zero, suc, ◌+◌, ◌%◌, ◌≤◌, ◌<◌, ◌≡◌, true, false, List, [], ◌∷◌, ◌⊎◌, arith, ltb, leb, tests,
  ◌==◌, has, length, Bool-cases, inl, inr, ◌∙◌, ◌+w◌, ==→eq, word,
}
use shm_next.Allocator.{Allocator, segment_end}
use shm_next.Allocator.Chain.{Chain, Chain-Member, Chain-le, Chain-from}
use shm_next.Allocator.Walks.{bad_size, previous_loop, in_chain_loop, last_loop}

-- The tests that each step of a walk makes pass at a block of a chain that ends below 2 ^ 64.
pub record Passes (a : Allocator) (x e : ℕ) : Type 0 where
  pub sum : x +w a.size x ≡ x + a.size x
  pub sized : bad_size a x ≡ false
  pub ahead : leb (x + a.size x) x ≡ false
  pub inside : ltb e (x + a.size x) ≡ false
  pub before : ltb x e ≡ true

pub passes :
    (a : Allocator) (x e : ℕ)
    → 32 ≤ a.size x
    → a.size x % 16 ≡ 0
    → x + a.size x ≤ e
    → e < word
    → Passes a x e
passes a x e l m le small = record {
  sum = omega arith;
  sized = ground arith;
  ahead = omega tests;
  inside = omega tests;
  before = omega tests;
}

module _ (a : Allocator) (e : ℕ) (small : e < word) where
  previous_step :
      (visits target x prev : ℕ)
      → 32 ≤ a.size x
      → a.size x % 16 ≡ 0
      → x + a.size x ≤ target
      → target < word
      → previous_loop (suc visits) a target x prev ≡ previous_loop visits a target (x + a.size x) x
  unfolding previous_loop
  previous_step visits target x prev l m le lt =
      let p = passes a x target l m le lt in rw (p.before, p.sized, p.sum, p.ahead, p.inside)

  pub previous_loop-Chain :
      (visits target current prev : ℕ) (bs : List ℕ)
      → Chain a.size current e bs
      → (has target bs ≡ true) ⊎ (target ≡ e)
      → length bs < visits
      → ((current ≡ target) × (previous_loop visits a target current prev ≡ prev))
        ⊎ ((r : ℕ) × (has r bs ≡ true)
            × (r + a.size r ≡ target)
            × (previous_loop visits a target current prev ≡ r))
  previous_loop-Chain zero target current prev bs c i f = absurd (omega arith)
  previous_loop-Chain (suc visits) target current prev [] c i f =
      let e' : current ≡ target = ground arith in inl (e', unfold previous_loop in ground arith)
  previous_loop-Chain (suc visits) target current prev (x ∷ bs) (h, l, m, c) i f =
      elim (Bool-cases (current == target)) [
        | inl hit ↦ inl (==→eq current target hit, unfold previous_loop in ground arith)
        | inr miss ↦
            let i' : (has target bs ≡ true) ⊎ (target ≡ e) = ground arith in
            let le = Chain-from a.size (x + a.size x) e target bs c i' in
            let lt : target < word = elim i' [
              | inl j ↦ omega (arith, Chain-Member a.size _ e target bs c j)
              | inr j ↦ omega arith
            ] in
            let step = previous_step visits target x prev l m le lt in
            inr (
              rw h
                (elim (previous_loop-Chain visits target (x + a.size x) x bs c i' (omega arith)) [
                  | inl (eq, run) ↦ (x, ground arith, eq, step ∙ run)
                  | inr (r, j, eq, run) ↦ (r, ground arith, eq, step ∙ run)
                ]))
      ]

  in_chain_step :
      (visits target x : ℕ)
      → 32 ≤ a.size x
      → a.size x % 16 ≡ 0
      → x + a.size x ≤ e
      → segment_end a ≡ e
      → (target == x) ≡ false
      → in_chain_loop (suc visits) a target x ≡ in_chain_loop visits a target (x + a.size x)
  unfolding in_chain_loop
  in_chain_step visits target x l m le end miss =
      let p = passes a x e l m le small in
      let miss' : (x == target) ≡ false = ground arith in
      rw (end, p.before, miss', p.sized, p.sum, p.ahead, p.inside)

  -- `is_block_in_chain` decides membership in the chain.
  pub in_chain_loop-has :
      (visits target current : ℕ) (bs : List ℕ)
      → Chain a.size current e bs
      → segment_end a ≡ e
      → length bs < visits
      → in_chain_loop visits a target current ≡ has target bs
  in_chain_loop-has zero target current bs c end f = absurd (omega arith)
  in_chain_loop-has (suc visits) target current [] c end f = unfold in_chain_loop in ground arith
  in_chain_loop-has (suc visits) target current (x ∷ bs) (h, l, m, c) end f =
      let le = Chain-le a.size (x + a.size x) e bs c in
      let lt : x < e = omega arith in
      rw h (elim (Bool-cases (target == x)) [
        | inl hit ↦ unfold in_chain_loop in ground arith
        | inr miss ↦ rw miss (
            in_chain_step visits target x l m (omega arith) end miss
            ∙ in_chain_loop-has visits target (x + a.size x) bs c end (omega arith))
      ])

  last_step :
      (visits x last : ℕ)
      → 32 ≤ a.size x
      → a.size x % 16 ≡ 0
      → x + a.size x ≤ e
      → segment_end a ≡ e
      → last_loop (suc visits) a x last ≡ last_loop visits a (x + a.size x) x
  unfolding last_loop
  last_step visits x last l m le end =
      let p = passes a x e l m le small in rw (end, p.before, p.sized, p.sum, p.ahead, p.inside)

  -- `last_block` is the block that ends where the segment does.
  pub last_loop-Chain :
      (visits current last : ℕ) (bs : List ℕ)
      → Chain a.size current e bs
      → segment_end a ≡ e
      → length bs < visits
      → ((current ≡ e) × (last_loop visits a current last ≡ last))
        ⊎ ((r : ℕ) × (has r bs ≡ true) × (r + a.size r ≡ e) × (last_loop visits a current last ≡ r))
  last_loop-Chain zero current last bs c end f = absurd (omega arith)
  last_loop-Chain (suc visits) current last [] c end f = inl (c, unfold last_loop in ground arith)
  last_loop-Chain (suc visits) current last (x ∷ bs) (h, l, m, c) end f =
      let le = Chain-le a.size (x + a.size x) e bs c in
      let step = last_step visits x last l m (omega arith) end in
      inr (
        rw h (elim (last_loop-Chain visits (x + a.size x) x bs c end (omega arith)) [
          | inl (eq, run) ↦ (x, ground arith, eq, step ∙ run)
          | inr (r, j, eq, run) ↦ (r, ground arith, eq, step ∙ run)
        ]))
