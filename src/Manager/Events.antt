-- ===== src/Manager/Events.antt =====
-- shared_memory_manager.h: what writers do to the metadata between the loads of a reader.
use mathlib.Core.Path.{subst}
use shm_next.Base.{
  ℕ, zero, suc, ◌+◌, ◌%◌, ◌≤◌, ◌<◌, ◌≡◌, refl, true, List, [], ◌∷◌, ◌==◌, ==→eq, arith,
  if◌then◌else◌, word, inl, inr, ◌∙◌, sym, ap, Bool-cases, length,
}
use shm_next.Manager.{Metadata, begin_metadata_write, end_metadata_write}

-- What writers do between two loads of a reader. Metadata changes only between `begins` and `ends`.
pub data Event (A : Type 0) : Type 0 where
  begins ends : Event A
  changes : A → Event A

module _ {A : Type 0} where
  abbrev pub happen : Event A → Metadata A → Metadata A
  happen begins m = begin_metadata_write m
  happen ends m = end_metadata_write m
  happen (changes c) m = if m.generation % 2 == 0 then m else record m { content = c }

  abbrev pub happen_all : List (Event A) → Metadata A → Metadata A
  happen_all [] m = m
  happen_all (e ∷ es) m = happen_all es (happen e m)

  -- From `m` to `m'` the generation went up `n` times, and nothing changed where it was even and did not.
  pub record Moved (n : ℕ) (m m' : Metadata A) : Type 0 where
    pub generation : m'.generation ≡ (m.generation + n) % word
    pub unchanged : (m.generation % 2 == 0) ≡ true → n ≡ 0 → m'.content ≡ m.content

  happen-Moved :
      (e : Event A) (m : Metadata A)
      → m.generation < word
      → (n : ℕ) × (n ≤ 1) × Moved n m (happen e m)
  unfolding begin_metadata_write end_metadata_write
  happen-Moved begins m small = elim (Bool-cases (m.generation % 2 == 0)) [
    | inl e ↦ (
      1,
      omega arith,
      rw e (record { generation = refl; unchanged = λ _ z. absurd (omega (arith, z)) }),
    )
    | inr e ↦ (
      0,
      omega arith,
      rw e (record { generation = omega (arith, small); unchanged = λ _ _. refl }),
    )
  ]
  happen-Moved ends m small = elim (Bool-cases (m.generation % 2 == 0)) [
    | inl e ↦ (
      0,
      omega arith,
      rw e (record { generation = omega (arith, small); unchanged = λ _ _. refl }),
    )
    | inr e ↦ (
      1,
      omega arith,
      rw e (record { generation = refl; unchanged = λ _ z. absurd (omega (arith, z)) }),
    )
  ]
  happen-Moved (changes c) m small = elim (Bool-cases (m.generation % 2 == 0)) [
    | inl e ↦ (
      0,
      omega arith,
      rw e (record { generation = omega (arith, small); unchanged = λ _ _. refl }),
    )
    | inr e ↦ (
      0,
      omega arith,
      rw e (record {
        generation = omega (arith, small);
        unchanged = λ even _. absurd (ground (arith, e, even));
      }),
    )
  ]

  Moved-trans :
      (i j : ℕ) (a b c : Metadata A)
      → a.generation < word
      → Moved i a b
      → Moved j b c
      → Moved (i + j) a c
  Moved-trans i j a b c small p q = record {
    generation = omega (arith, p.generation, q.generation);
    unchanged = λ even z.
        let i0 : i ≡ 0 = omega (arith, z) in
        let j0 : j ≡ 0 = omega (arith, z) in
        let same : b.generation ≡ a.generation = omega (arith, p.generation, i0, small) in
        let even' : (b.generation % 2 == 0) ≡ true = ap (λ g. g % 2 == 0) same ∙ even in
        q.unchanged even' j0 ∙ p.unchanged even i0;
  }

  happen-small :
      (e : Event A) (m : Metadata A) → m.generation < word → (happen e m).generation < word
  happen-small e m small = let (n, _, p) = happen-Moved e m small in omega (arith, p.generation)

  happen_all-Moved :
      (es : List (Event A)) (m : Metadata A)
      → m.generation < word
      → (n : ℕ) × (n ≤ length es) × Moved n m (happen_all es m)
  happen_all-Moved [] m small =
      (0, omega arith, record { generation = omega (arith, small); unchanged = λ _ _. refl })
  happen_all-Moved (e ∷ es) m small =
      let (i, le, p) = happen-Moved e m small in
      let (j, le', q) = happen_all-Moved es (happen e m) (happen-small e m small) in
      (
        i + j,
        omega (arith, le, le'),
        Moved-trans i j m (happen e m) (happen_all es (happen e m)) small p q,
      )

  -- `m` follows what the writers do, `es t` between the loads number t and t + 1.
  abbrev pub Follows : (es : ℕ → List (Event A)) → (m : ℕ → Metadata A) → Type 0
  Follows es m = ((m 0).generation < word) × ((t : ℕ) → m (suc t) ≡ happen_all (es t) (m t))

  -- the number of things that the writers did before the load number t
  abbrev pub events_before : (es : ℕ → List (Event A)) → (t : ℕ) → ℕ
  events_before es zero = 0
  events_before es (suc t) = events_before es t + length (es t)

  module _ (es : ℕ → List (Event A)) (m : ℕ → Metadata A) (f : Follows es m) where
    small_at : (t : ℕ) → (m t).generation < word
    small_at zero = f.0
    small_at (suc t) =
        let (n, _, p) = happen_all-Moved (es t) (m t) (small_at t) in
        let next = f.1 t in
        subst (λ c. c.generation < word) (sym next) (omega (arith, p.generation))

    -- from the load number t to the load number u
    abbrev Between : (t u : ℕ) → Type 0
    Between t u = (n : ℕ) × (n + events_before es t ≤ events_before es u) × Moved n (m t) (m u)

    at_once : (t : ℕ) → Between t t
    at_once t =
        let small = small_at t in
        (0, omega arith, record { generation = omega (arith, small); unchanged = λ _ _. refl })

    later : (t u : ℕ) → Between t u → Between t (suc u)
    later t u (i, le, p) =
        let (j, le', q) = happen_all-Moved (es u) (m u) (small_at u) in
        let r = Moved-trans i j (m t) (m u) (happen_all (es u) (m u)) (small_at t) p q in
        (i + j, omega (arith, le, le'), subst (Moved (i + j) (m t)) (sym (f.1 u)) r)

    between : (t u : ℕ) → t ≤ u → Between t u
    between t zero le = subst (λ s. Between s zero) (omega (arith, le)) (at_once zero)
    between t (suc u) le = elim (Bool-cases (t == suc u)) [
      | inl e ↦ subst (Between t) (==→eq t (suc u) e) (at_once t)
      | inr e ↦ later t u (between t u (ground (arith, e, le)))
    ]

    -- Where the generation is even and the same again later, the metadata was the same in between.
    pub quiet :
        (t u v : ℕ)
        → t ≤ u
        → u ≤ v
        → events_before es v < word
        → ((m t).generation % 2 == 0) ≡ true
        → (m v).generation ≡ (m t).generation
        → (m u).content ≡ (m t).content
    quiet t u v le le' few even same =
        let (i, a, p) = between t u le in
        let (j, b, q) = between u v le' in
        let small = small_at t in
        let r = Moved-trans i j (m t) (m u) (m v) small p q in
        p.unchanged even (omega (arith, r.generation, same, small, a, b, few))
