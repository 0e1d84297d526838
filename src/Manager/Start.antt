-- ===== src/Manager/Start.antt =====
-- shared_memory_manager.h: what `create` makes of a segment that is all zero.
use shm_next.Base.{
  ℕ, ◌+◌, ◌%◌, ◌^◌, ◌≤◌, ◌<◌, ◌≡◌, refl, true, false, [], ◌∷◌, ltb, ◌==◌, arith, ◌∙◌, ap,
}
use shm_next.Errors.{initialization_in_progress}
use shm_next.Allocator.{Allocator, ok, block_header}
use shm_next.Allocator.Calls
use shm_next.Allocator.Walks.{check_sanity}
use shm_next.Allocator.Invariant.{IsValid}
use shm_next.Allocator.Start.{initialize-IsValid}
use shm_next.Allocator.Sanity.{check_sanity-true}
use shm_next.Manager.Lifecycle.{
  Segment, returned, refused, claim, construct, construct_if, create, attach, check_sanity_unlocked,
  begun, finish,
}

module _ (manager_size current_layout_version : ℕ) where
  abbrev made : (total_size : ℕ) → Allocator → Segment → Segment
  made total_size a s =
      (finish manager_size current_layout_version total_size (ok tt a)
        (begun manager_size current_layout_version s)).1

  claims :
      (total : ℕ) (s : Segment)
      → manager_size + block_header ≤ total
      → s.initialization_state ≡ 0
      → claim manager_size current_layout_version total s
        ≡ (returned, record s { initialization_state = 1 })
  unfolding claim
  claims total s room zero =
      let a : ltb total (manager_size + block_header) ≡ false = ground (arith, room) in
      let b : (s.initialization_state == 0) ≡ true = ground (arith, zero) in rw (a, b, claim) refl

  constructs :
      (base total : ℕ) (s : Segment) (a : Allocator)
      → Calls.initialize base manager_size total s.block_allocator ≡ ok tt a
      → construct manager_size current_layout_version true base total s ≡ (returned, made total a s)
  unfolding construct
  constructs base total s a h =
      ap
        (λ r.
          finish manager_size current_layout_version total r
            (begun manager_size current_layout_version s))
        h

  pub made-attach :
      (total : ℕ) (a : Allocator) (s : Segment)
      → 1 ≤ current_layout_version
      → attach manager_size current_layout_version (made total a s) ≡ returned
  unfolding attach
  made-attach total a s v = ground (arith, v)

  made-sane :
      (total : ℕ) (a : Allocator) (s : Segment)
      → 1 ≤ current_layout_version
      → check_sanity a ≡ true
      → check_sanity_unlocked manager_size current_layout_version (made total a s) ≡ true
  unfolding check_sanity_unlocked
  made-sane total a s v h = ground (arith, v, h)

  claims_again :
      (total total' : ℕ) (a : Allocator) (s : Segment)
      → manager_size + block_header ≤ total'
      → claim manager_size current_layout_version total' (made total a s)
        ≡ (refused initialization_in_progress, made total a s)
  unfolding claim
  claims_again total total' a s room =
      let e : ltb total' (manager_size + block_header) ≡ false = ground (arith, room) in
      rw (e, claim) refl

  -- `create` of a segment whose state word is 0, at an aligned address, with room for the manager and a
  -- block, makes a manager: `attach` accepts it, it passes the check of its sanity, its block allocator is
  -- in a valid state, with one free block, its size is that of the segment, and a second `create` is
  -- refused and changes nothing. The segment ends below 2 ^ 63 and its length is a multiple of 16; the
  -- constructor of the mutex returns.
  pub create-attach :
      (base total : ℕ) (s : Segment)
      → 0 < base
      → base % 16 ≡ 0
      → total % 16 ≡ 0
      → base + total < 2 ^ 63
      → manager_size + 47 ≤ total
      → 1 ≤ current_layout_version
      → s.initialization_state ≡ 0
      → (s' : Segment) × (first : ℕ) × (create manager_size current_layout_version true base total s
          ≡ (returned, s'))
        × (attach manager_size current_layout_version s' ≡ returned)
        × (check_sanity_unlocked manager_size current_layout_version s' ≡ true)
        × IsValid s'.block_allocator (first ∷ []) (first ∷ [])
        × (s'.total_size ≡ total)
        × (create manager_size current_layout_version true base total s'
            ≡ (refused initialization_in_progress, s'))
  create-attach base total s pos al al' small room v zero =
      let (a, first, run, valid, _, _, _) =
        initialize-IsValid base manager_size total s.block_allocator pos al al' small room in
      let room' : manager_size + block_header ≤ total = omega (arith, room) in
      let t = record s { initialization_state = 1 } in
      (
        made total a s,
        first,
        ap (construct_if manager_size current_layout_version true base total)
              (claims total s room' zero)
            ∙ constructs base total t a run,
        made-attach total a s v,
        made-sane total a s v (check_sanity-true a (first ∷ []) (first ∷ []) valid),
        valid,
        refl,
        ap (construct_if manager_size current_layout_version true base total)
            (claims_again total total a s room'),
      )
