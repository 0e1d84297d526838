-- ===== src/Manager/Attaching.antt =====
-- shared_memory_manager.h: how `create` and `attach` depend on the state word.
use shm_next.Base.{
  ℕ, ◌+◌, ◌≤◌, ◌≡◌, refl, true, ltb, ◌==◌, arith, ◌∙◌, sym, Bool-cases, ◌⊎◌, inl, inr,
}
use shm_next.Errors.{InterprocessErrc, segment_too_small}
use shm_next.Allocator.{block_header}
use shm_next.Manager.Lifecycle.{
  Segment, magic_number, returned, refused, claim, attach, state_error,
}

module _ (manager_size current_layout_version base_addr total_size : ℕ) where
  pub attach-initialized :
      (s : Segment)
      → attach manager_size current_layout_version s ≡ returned
      → (s.initialization_state == 2) ≡ true
  unfolding attach
  attach-initialized s h = elim (Bool-cases (s.initialization_state == 2)) [
    | inl e ↦ e
    | inr e ↦
        let r : attach manager_size current_layout_version s
            ≡ refused (state_error s.initialization_state) =
          rw (e, attach) refl in
        absurd (let c = sym r ∙ h in ground (arith, c))
  ]

  pub claim-cases :
      (s : Segment)
      → ((claim manager_size current_layout_version total_size s
            ≡ (returned, record s { initialization_state = 1 }))
          × ((s.initialization_state == 0) ≡ true))
        ⊎ ((e : InterprocessErrc) × (claim manager_size current_layout_version total_size s
              ≡ (refused e, s)))
  unfolding claim
  claim-cases s = elim (Bool-cases (ltb total_size (manager_size + block_header))) [
    | inl e ↦ inr (segment_too_small, rw (e, claim) refl)
    | inr e ↦ elim (Bool-cases (s.initialization_state == 0)) [
      | inl f ↦ inl (rw (e, f, claim) refl, f)
      | inr f ↦ inr (state_error s.initialization_state, rw (e, f, claim) refl)
    ]
  ]

  -- A segment with the right marks can be attached.
  pub complete-attach :
      (s : Segment)
      → (s.initialization_state == 2) ≡ true
      → (s.magic == magic_number) ≡ true
      → s.layout_version ≡ current_layout_version
      → s.header_size ≡ manager_size
      → 1 ≤ current_layout_version
      → attach manager_size current_layout_version s ≡ returned
  unfolding attach
  complete-attach s i m v h one = ground (arith, i, m, v, h, one)
