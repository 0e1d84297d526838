-- ===== src/Allocator/DoubleFree.antt =====
-- A pointer that was given back is refused the second time.
use shm_next.Base.{
  ℕ, ◌+◌, ◌-◌, ◌≤◌, ◌<◌, ◌≡◌, true, false, List, ◌⊎◌, arith, ◌==◌, has, Bool-cases, inl, inr, ◌∙◌,
  ap, ◌-w◌, ==→eq, ==→ne,
}
use shm_next.Errors.{double_free, invalid_pointer}
use shm_next.Allocator.{Allocator, Run, throw}
use shm_next.Allocator.Count
use shm_next.Allocator.Chain.{Chain-Member, Chain-apart}
use shm_next.Allocator.Calls.{deallocate}
use shm_next.Allocator.Invariant.{IsValid}
use shm_next.Allocator.Neighbours.{is_block_in_chain-has}
use shm_next.Allocator.Pointers.{
  IsLive, Released, has_allocation_header-payload, is_valid_payload-within,
}
use shm_next.Allocator.Take.{counted-IsValid}
use shm_next.Allocator.Walks.{has_allocation_header, is_valid_payload, is_block_in_chain}

deallocate_refuses :
    (a : Allocator) (p b : ℕ)
    → (p == 0) ≡ false
    → a.header_block (p -w 16) ≡ b
    → is_valid_payload (Count.deallocate_call a) p b ≡ false
    → deallocate p a ≡ throw invalid_pointer (Count.deallocate_call a)
unfolding deallocate
deallocate_refuses a p b z hb vp = rw z (rw (hb, vp) (ground arith))

deallocate_detects :
    (a : Allocator) (p b : ℕ)
    → (p == 0) ≡ false
    → a.header_block (p -w 16) ≡ b
    → has_allocation_header (Count.deallocate_call a) p ≡ true
    → is_valid_payload (Count.deallocate_call a) p b ≡ true
    → a.is_free b ≡ true
    → deallocate p a ≡ throw double_free (Count.deallocate_call a)
unfolding deallocate
deallocate_detects a p b z hb hh vp free = rw z (rw (hb, hh, vp, free))

is_valid_payload-unchained :
    (a : Allocator) (p b : ℕ) → is_block_in_chain a b ≡ false → is_valid_payload a p b ≡ false
unfolding is_valid_payload
is_valid_payload-unchained a p b out = ground arith

-- A block that is still in the chain after its release is the one that covers it.
covering :
    {a : Allocator} {bs : List ℕ} {b : ℕ} {r : Run (Unit {0})} (d : Released a bs b r)
    → 0 < a.size b
    → has b d.blocks ≡ true
    → b ≡ d.b'
covering {a} {bs} {b} d pos i = elim (Bool-cases (b == d.b')) [
  | inl same ↦ ==→eq b d.b' same
  | inr other ↦
      let ne = ==→ne b d.b' other in
      let lt : d.b' < b = omega (arith, d.grows.from) in
      let apart =
        Chain-apart d.after.size _ _ d.b' b d.blocks d.valid.blocks.chain d.present i lt in
      absurd (omega (arith, apart, d.grows.to))
]

-- After `deallocate` of a payload pointer in use in a valid state, a second `deallocate` of it throws
-- `double_free` or `invalid_pointer`, and changes nothing but the count of the calls.
pub deallocate-twice :
    (a : Allocator) (bs xs : List ℕ) (b p : ℕ)
    → IsValid a bs xs
    → IsLive a bs b p
    → (d : Released a bs b (deallocate p a))
    → (deallocate p d.after ≡ throw double_free (Count.deallocate_call d.after))
      ⊎ (deallocate p d.after ≡ throw invalid_pointer (Count.deallocate_call d.after))
deallocate-twice a bs xs b p v l d =
    let m = Chain-Member a.size _ _ b bs v.blocks.chain l.present in
    let w : p -w 16 ≡ p - 16 = omega (arith, m.below, v.blocks.small, l.behind, l.inside) in
    let z : (p == 0) ≡ false = ground (arith, l.behind) in
    let hb : d.after.header_block (p -w 16) ≡ b = rw (w, d.grows.keeps.headers) l.block in
    let a' = Count.deallocate_call d.after in
    let v' = counted-IsValid d.after a'.counters d.blocks d.list d.valid in
    elim (Bool-cases (has b d.blocks)) [
      | inl i ↦
          let eq = covering d (omega (arith, m.large)) i in
          let same = ap d.after.size eq in
          let inside : p < b + d.after.size b = omega (arith, l.inside, d.grows.to, same, eq) in
          let within : p + d.after.requested_size (p - 16) ≤ b + d.after.size b =
            rw d.grows.keeps.requests (omega (arith, l.within, d.grows.to, same, eq)) in
          inl (
            deallocate_detects d.after p b z hb
              (has_allocation_header-payload a' d.blocks d.list b p v' i l.behind inside)
              (is_valid_payload-within a' d.blocks d.list b p v' i l.behind inside within)
              (ap d.after.is_free eq ∙ d.free))
      | inr out ↦ inr (
          deallocate_refuses d.after p b z hb (
            is_valid_payload-unchained a' p b
              (is_block_in_chain-has a' d.blocks v'.blocks b ∙ out)))
    ]
