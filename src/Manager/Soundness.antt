-- ===== src/Manager/Soundness.antt =====
-- shared_memory_manager.h: at most one process makes the manager, and it is complete for whoever has it.
use mathlib.Core.Path.{subst}
use shm_next.Base.{
  ℕ, ◌≤◌, ◌≡◌, refl, Bool, true, false, List, [], ◌∷◌, ◌==◌, ==→eq, arith, ◌∙◌, sym, ap, update,
  update_eq, update_ne, Bool-cases, ◌⊎◌, inl, inr,
}
use shm_next.Allocator.{Run, ok, throw, endless}
use shm_next.Allocator.Calls
use shm_next.Manager.Lifecycle.{
  magic_number, Segment, Outcome, returned, refused, system_error, claim, attach, begun, filled,
  signed, published, mark_corrupted,
}
use shm_next.Manager.Attaching.{attach-initialized, claim-cases, complete-attach}
use shm_next.Manager.Processes.{
  Phase, idle, claimed, has_begun, has_filled, has_signed, created, unwinding, broken, attached,
  failed, Act, claims, proceeds, attaches, World, is_idle, is_owner, is_working, is_headed, is_full,
  is_signed, has_manager, becomes, moves, fills, advance, step, steps, Full, Fits, Complete,
  IsSound,
}

-- where a test holds of a phase after process p went to the phase `f`
updated :
    (test : Phase → Bool) (phase : ℕ → Phase) (p q : ℕ) (f : Phase)
    → test (update phase p f q) ≡ true
    → (((q == p) ≡ true) × (test f ≡ true)) ⊎ (((q == p) ≡ false) × (test (phase q) ≡ true))
updated test phase p q f h = elim (Bool-cases (q == p)) [
  | inl e ↦ inl (e, ap test (sym (update_eq phase p q f e)) ∙ h)
  | inr e ↦ inr (e, ap test (sym (update_ne phase p q f e)) ∙ h)
]

module _ (manager_size current_layout_version base_addr total_size : ℕ) where
  abbrev FitsIn : Phase → Segment → Type 0
  FitsIn = Fits manager_size current_layout_version base_addr total_size

  abbrev Sound : World → Type 0
  Sound = IsSound manager_size current_layout_version base_addr total_size

  -- a process within `create`
  in_work :
      (f : Phase) (s : Segment)
      → (s.initialization_state == 1) ≡ true
      → (is_headed f ≡ true → s.layout_version ≡ current_layout_version)
      → (is_headed f ≡ true → s.header_size ≡ manager_size)
      → (is_full f ≡ true → Full manager_size current_layout_version base_addr total_size s)
      → (is_signed f ≡ true → (s.magic == magic_number) ≡ true)
      → has_manager f ≡ false
      → FitsIn f s
  in_work f s one version header full marked m = record {
    busy = λ h. ground (arith, one);
    working = λ h. one;
    version = version;
    header = header;
    full = full;
    marked = marked;
    ready = λ h. absurd (ground (arith, h, m));
  }

  -- a process that is not within `create`
  at_rest :
      (f : Phase) (s : Segment)
      → (is_owner f ≡ true → (s.initialization_state == 0) ≡ false)
      → is_working f ≡ false
      → is_headed f ≡ false
      → is_full f ≡ false
      → is_signed f ≡ false
      → (has_manager f ≡ true → (s.initialization_state == 2) ≡ true)
      → FitsIn f s
  at_rest f s busy k d u g ready = record {
    busy = busy;
    working = λ h. absurd (ground (arith, h, k));
    version = λ h. absurd (ground (arith, h, d));
    header = λ h. absurd (ground (arith, h, d));
    full = λ h. absurd (ground (arith, h, u));
    marked = λ h. absurd (ground (arith, h, g));
    ready = ready;
  }

  unready :
      (s : Segment)
      → (s.initialization_state == 1) ≡ true
      → Complete manager_size current_layout_version base_addr total_size s
  unready s one = λ two. absurd (ground (arith, one, two))

  -- a process that never made the exchange and has no manager fits to any segment
  bystander : (f : Phase) (s : Segment) → is_owner f ≡ false → has_manager f ≡ false → FitsIn f s
  bystander idle s o m =
      at_rest idle s (λ h. absurd (ground (arith, h))) refl refl refl refl
        λ h. absurd (ground (arith, h))
  bystander failed s o m =
      at_rest failed s (λ h. absurd (ground (arith, h))) refl refl refl refl
        λ h. absurd (ground (arith, h))
  bystander attached s o m = absurd (ground (arith, m))
  bystander claimed s o m = absurd (ground (arith, o))
  bystander has_begun s o m = absurd (ground (arith, o))
  bystander has_filled s o m = absurd (ground (arith, o))
  bystander has_signed s o m = absurd (ground (arith, o))
  bystander created s o m = absurd (ground (arith, o))
  bystander unwinding s o m = absurd (ground (arith, o))
  bystander broken s o m = absurd (ground (arith, o))

  is-false : (b : Bool) → (b ≡ true → ⊥) → b ≡ false
  is-false b f = elim (Bool-cases b) [ inl e ↦ absurd (f e) | inr e ↦ e ]

  module _ (w : World) (sound : Sound w) (p : ℕ) where
    -- a process that leaves the segment alone
    keeps : (f : Phase) → is_owner f ≡ false → FitsIn f w.segment → Sound (moves p f w.segment w)
    keeps f o fit = record {
      alone = λ q r i j. elim (updated is_owner w.phase p q f i) [
        | inl (e, x) ↦ absurd (ground (arith, x, o))
        | inr (e, x) ↦ elim (updated is_owner w.phase p r f j) [
          | inl (e', y) ↦ absurd (ground (arith, y, o))
          | inr (e', y) ↦ sound.alone q r x y
        ]
      ];
      fits = λ q. elim (Bool-cases (q == p)) [
        | inl e ↦ subst (λ g. FitsIn g w.segment) (sym (update_eq w.phase p q f e)) fit
        | inr e ↦ subst (λ g. FitsIn g w.segment) (sym (update_ne w.phase p q f e)) (sound.fits q)
      ];
      complete = sound.complete;
    }

    -- a process that writes, while no other made the exchange or has the manager
    writes :
        (f : Phase) (s : Segment)
        → ((q : ℕ) → (q == p) ≡ false → is_owner (w.phase q) ≡ true → ⊥)
        → ((q : ℕ) → (q == p) ≡ false → has_manager (w.phase q) ≡ true → ⊥)
        → FitsIn f s
        → Complete manager_size current_layout_version base_addr total_size s
        → Sound (moves p f s w)
    writes f s none_owns none_has fit c = record {
      alone = λ q r i j. elim (updated is_owner w.phase p q f i) [
        | inr (e, x) ↦ absurd (none_owns q e x)
        | inl (e, x) ↦ elim (updated is_owner w.phase p r f j) [
          | inr (e', y) ↦ absurd (none_owns r e' y)
          | inl (e', y) ↦ ==→eq q p e ∙ sym (==→eq r p e')
        ]
      ];
      fits = λ q. elim (Bool-cases (q == p)) [
        | inl e ↦ subst (λ g. FitsIn g s) (sym (update_eq w.phase p q f e)) fit
        | inr e ↦
            subst (λ g. FitsIn g s) (sym (update_ne w.phase p q f e))
              (bystander (w.phase q) s (is-false _ (none_owns q e)) (is-false _ (none_has q e)))
      ];
      complete = c;
    }

    -- the same for a process within `create`
    works :
        (g f : Phase) (s : Segment)
        → w.phase p ≡ g
        → is_owner g ≡ true
        → is_working g ≡ true
        → FitsIn f s
        → Complete manager_size current_layout_version base_addr total_size s
        → Sound (moves p f s w)
    works g f s h o k fit c =
        let o' : is_owner (w.phase p) ≡ true = ap is_owner h ∙ o in
        let one : (w.segment.initialization_state == 1) ≡ true =
          (sound.fits p).working (ap is_working h ∙ k) in
        writes f s (λ q e x. let same = sound.alone q p x o' in ground (arith, e, same))
          (λ q e x. let two = (sound.fits q).ready x in ground (arith, two, one)) fit c

    mine : (g : Phase) → w.phase p ≡ g → FitsIn g w.segment
    mine g h = subst (λ f. FitsIn f w.segment) h (sound.fits p)

    -- the first writes of the constructor
    begins-IsSound :
        w.phase p ≡ claimed
        → Sound (moves p has_begun (begun manager_size current_layout_version w.segment) w)
    begins-IsSound h =
        let s = begun manager_size current_layout_version w.segment in
        works claimed has_begun s h refl refl
          (in_work has_begun s refl (λ i. refl) (λ i. refl) (λ i. absurd (ground (arith, i)))
            (λ i. absurd (ground (arith, i))) refl)
          (unready s refl)

    -- the mutex is not made
    unwinds-IsSound :
        (g : Phase) (s : Segment)
        → w.phase p ≡ g
        → is_owner g ≡ true
        → is_working g ≡ true
        → (s.initialization_state == 1) ≡ true
        → Sound (moves p unwinding s w)
    unwinds-IsSound g s h o k one =
        works g unwinding s h o k
          (in_work unwinding s one (λ i. absurd (ground (arith, i)))
            (λ i. absurd (ground (arith, i))) (λ i. absurd (ground (arith, i)))
            (λ i. absurd (ground (arith, i))) refl)
          (unready s one)

    fills-IsSound :
        w.phase p ≡ has_begun
        → (r : Run (Unit {0}))
        → Calls.initialize base_addr manager_size total_size w.segment.block_allocator ≡ r
        → Sound (fills manager_size current_layout_version base_addr total_size p r w)
    fills-IsSound h (ok tt a) i =
        let m = mine has_begun h in
        let s = filled total_size a w.segment in
        let one : (s.initialization_state == 1) ≡ true = m.working refl in
        works has_begun has_filled s h refl refl
          (in_work has_filled s one (λ i. m.version refl) (λ i. m.header refl)
            (λ _. ((w.segment.block_allocator, i), refl)) (λ i. absurd (ground (arith, i))) refl)
          (unready s one)
    fills-IsSound h (throw e a) i =
        let m = mine has_begun h in
        unwinds-IsSound has_begun (filled total_size a w.segment) h refl refl (m.working refl)
    fills-IsSound h endless i = sound

    signs-IsSound : w.phase p ≡ has_filled → Sound (moves p has_signed (signed w.segment) w)
    signs-IsSound h =
        let m = mine has_filled h in
        let s = signed w.segment in
        let one : (s.initialization_state == 1) ≡ true = m.working refl in
        works has_filled has_signed s h refl refl
          (in_work has_signed s one (λ i. m.version refl) (λ i. m.header refl) (λ i. m.full refl)
            (λ i. refl) refl)
          (unready s one)

    publishes-IsSound :
        1 ≤ current_layout_version
        → w.phase p ≡ has_signed
        → Sound (moves p created (published w.segment) w)
    publishes-IsSound v h =
        let m = mine has_signed h in
        let s = published w.segment in
        works has_signed created s h refl refl
          (at_rest created s (λ i. refl) refl refl refl refl λ i. refl)
          (λ two. (
            complete-attach manager_size current_layout_version base_addr total_size s refl
                (m.marked refl) (m.version refl) (m.header refl) v,
            m.full refl,
          ))

    breaks-IsSound : w.phase p ≡ unwinding → Sound (moves p broken (mark_corrupted w.segment) w)
    breaks-IsSound h =
        let s = mark_corrupted w.segment in
        works unwinding broken s h refl refl
          (at_rest broken s (λ i. refl) refl refl refl refl λ i. absurd (ground (arith, i)))
          (λ two. absurd (ground (arith, two)))

    advance-IsSound :
        1 ≤ current_layout_version
        → (mutex_made : Bool) (g : Phase) → w.phase p ≡ g
        → Sound (advance manager_size current_layout_version base_addr total_size mutex_made p g w)
    advance-IsSound v made claimed h = begins-IsSound h
    advance-IsSound v false has_begun h =
        unwinds-IsSound has_begun w.segment h refl refl ((mine has_begun h).working refl)
    advance-IsSound v true has_begun h = fills-IsSound h _ refl
    advance-IsSound v made has_filled h = signs-IsSound h
    advance-IsSound v made has_signed h = publishes-IsSound v h
    advance-IsSound v made unwinding h = breaks-IsSound h
    advance-IsSound v made idle h = sound
    advance-IsSound v made created h = sound
    advance-IsSound v made broken h = sound
    advance-IsSound v made attached h = sound
    advance-IsSound v made failed h = sound

    fails-IsSound : Sound (moves p failed w.segment w)
    fails-IsSound = keeps failed refl (bystander failed w.segment refl refl)

    claims-IsSound :
        let (outcome, s) = claim manager_size current_layout_version total_size w.segment in
        Sound (moves p (becomes claimed outcome) s w)
    claims-IsSound =
        elim (claim-cases manager_size current_layout_version base_addr total_size w.segment) [
          | inr (e, run) ↦ rw run fails-IsSound
          | inl (run, zero) ↦
              let s = record w.segment { initialization_state = 1 } in
              rw run (
                writes claimed s (λ q e x. let b = (sound.fits q).busy x in ground (arith, b, zero))
                  (λ q e x. let two = (sound.fits q).ready x in ground (arith, two, zero))
                  (in_work claimed s refl (λ i. absurd (ground (arith, i)))
                    (λ i. absurd (ground (arith, i))) (λ i. absurd (ground (arith, i)))
                    (λ i. absurd (ground (arith, i))) refl)
                  (unready s refl))
        ]

    attaches-IsSound :
        (o : Outcome)
        → attach manager_size current_layout_version w.segment ≡ o
        → Sound (moves p (becomes attached o) w.segment w)
    attaches-IsSound returned h =
        let two =
          attach-initialized manager_size current_layout_version base_addr total_size w.segment h in
        keeps attached refl (
          at_rest attached w.segment (λ i. absurd (ground (arith, i))) refl refl refl refl λ i. two)
    attaches-IsSound (refused e) h = fails-IsSound
    attaches-IsSound system_error h = fails-IsSound

  step-IsSound :
      1 ≤ current_layout_version
      → (act : Act) (w : World) → Sound w
      → Sound (step manager_size current_layout_version base_addr total_size act w)
  unfolding step
  step-IsSound v (claims p) w sound = elim (Bool-cases (is_idle (w.phase p))) [
    | inr e ↦ rw (e, step) sound
    | inl e ↦ rw (e, step) (claims-IsSound w sound p)
  ]
  step-IsSound v (proceeds made p) w sound = advance-IsSound w sound p v made (w.phase p) refl
  step-IsSound v (attaches p) w sound = elim (Bool-cases (is_idle (w.phase p))) [
    | inr e ↦ rw (e, step) sound
    | inl e ↦ rw (e, step) (attaches-IsSound w sound p _ refl)
  ]

  -- Whatever steps of `create` and `attach` the processes take, in any order, from a sound world: at most
  -- one process makes the exchange of the state word, also of those whose constructor threw; and whoever
  -- has the manager, by `create` or by `attach`, has an initialized segment, which is complete: `attach`
  -- accepts it, its block allocator is what `initialize` returned with, and its size is that of the
  -- segment. The build writes a layout version of at least 1.
  pub steps-IsSound :
      1 ≤ current_layout_version
      → (acts : List Act) (w : World) → Sound w
      → Sound (steps manager_size current_layout_version base_addr total_size acts w)
  steps-IsSound v [] w sound = sound
  steps-IsSound v (act ∷ acts) w sound = steps-IsSound v acts _ (step-IsSound v act w sound)
