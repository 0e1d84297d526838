-- ===== src/Allocator/Many.antt =====
-- `allocate_many` and `deallocate_many`: all or nothing.
use mathlib.Core.List.{reverse}
use shm_next.Base.{
  ℕ, zero, suc, ◌+◌, ◌^◌, ◌≤◌, ◌<◌, ◌≡◌, refl, true, List, [], ◌∷◌, ◌++◌, ◌⊎◌, inl, inr, arith,
  ◌==◌, has, length, eq→==,
}
use shm_next.Errors.{InterprocessErrc, bad_alloc}
use shm_next.Allocator.{Allocator, Run, ok, throw}
use shm_next.Allocator.Count
use shm_next.Allocator.Calls.{
  allocate, deallocate, roll_back, allocate_many_loop, allocate_many, deallocate_each,
  deallocate_many,
}
use shm_next.Allocator.Pointers.{deallocate-Released}
use shm_next.Allocator.Sessions.{Session, IsSafe, block_of}
use shm_next.Allocator.Sessions.Safe.{Served-IsSafe, Refused-IsSafe, Released-IsSafe}
use shm_next.Allocator.Take.{allocate-total}

-- The allocator serves a client that holds `held`.
pub record Serves (a : Allocator) (held : List ℕ) : Type 0 where
  pub blocks : List ℕ
  pub list : List ℕ
  pub safe : IsSafe (record { allocator = a; held = held }) blocks list

-- the first of the pointers is given back
give-Serves :
    (a : Allocator) (p : ℕ) (ps : List ℕ)
    → Serves a (p ∷ ps)
    → (a' : Allocator) × (deallocate p a ≡ ok tt a') × Serves a' ps
give-Serves a p ps s =
    let self : (p == p) ≡ true = eq→== p p refl in
    let i : has p (p ∷ ps) ≡ true = ground arith in
    let d = deallocate-Released a s.blocks s.list (block_of a p) p s.safe.valid (s.safe.live p i) in
    let safe =
      Released-IsSafe (record { allocator = a; held = p ∷ ps }) s.blocks s.list s.safe p _ d i in
    (d.after, d.returns, record { blocks = d.blocks; list = d.list; safe = rw self at safe })

give_all-Serves :
    (ps held : List ℕ) (a : Allocator)
    → Serves a (ps ++ held)
    → (a' : Allocator) × (deallocate_each ps a ≡ ok tt a') × Serves a' held
unfolding deallocate_each
give_all-Serves [] held a s = (a, refl, s)
give_all-Serves (p ∷ ps) held a s =
    let (a₁, run, s₁) = give-Serves a p (ps ++ held) s in
    let (a₂, run', s₂) = give_all-Serves ps held a₁ s₁ in (a₂, rw run run', s₂)

roll_back-Serves :
    {A : Type 0} (ps held : List ℕ) (e : InterprocessErrc) (a : Allocator)
    → Serves a (ps ++ held)
    → (a' : Allocator) × (roll_back {A = A} ps e a ≡ throw e a')
      × (deallocate_each ps a ≡ ok tt a')
      × Serves a' held
unfolding roll_back deallocate_each
roll_back-Serves [] held e a s = (a, refl, refl, s)
roll_back-Serves {A = A} (p ∷ ps) held e a s =
    let (a₁, run, s₁) = give-Serves a p (ps ++ held) s in
    let (a₂, run', each, s₂) = roll_back-Serves {A = A} ps held e a₁ s₁ in
    (a₂, rw run run', rw run each, s₂)

-- The payloads `out` are those that one `allocate` after the other gave, the last one first.
abbrev pub Takes : (size requested : ℕ) → Allocator → List ℕ → Allocator → Type 0
Takes size requested a [] b = b ≡ a
Takes size requested a (p ∷ out) b =
    (c : Allocator) × Takes size requested a out c × (allocate size requested c ≡ ok p b)

-- What `allocate_many` of `count` payloads in the state `a` does to a client that holds `held`: it holds
-- the new payloads too; or, where an `allocate` throws, each payload that was taken is given back, and it
-- holds `held` as before.
pub record Many (size requested : ℕ) (a : Allocator) (held : List ℕ) (count : ℕ) (r : Run (List ℕ))
    : Type 0 where
  pub after : Allocator
  pub out : List ℕ
  pub result :
      (Takes size requested a out after
        × (r ≡ ok (reverse out) after)
        × (length out ≡ count)
        × Serves after (out ++ held))
      ⊎ ((b : Allocator) × (c : Allocator) × Takes size requested a out b
          × (allocate size requested b ≡ throw bad_alloc c)
          × (deallocate_each out c ≡ ok tt after)
          × (r ≡ throw bad_alloc after)
          × Serves after held)

module _ (held : List ℕ) (size requested : ℕ) (pos : 0 < size) (small : size ≤ 2 ^ 61)
    (modest : requested ≤ 2 ^ 61) where
  -- one allocation
  take-Serves :
      (out : List ℕ) (a : Allocator)
      → Serves a (out ++ held)
      → ((p : ℕ) × (a' : Allocator) × (allocate size requested a ≡ ok p a')
          × Serves a' ((p ∷ out) ++ held))
        ⊎ ((a' : Allocator) × (allocate size requested a ≡ throw bad_alloc a')
            × Serves a' (out ++ held))
  take-Serves out a s =
      let (n, _, _, result) =
        allocate-total a size requested s.blocks s.list s.safe.valid pos small modest in
      let session : Session = record { allocator = a; held = out ++ held } in
      elim result [
        | inl t ↦ inl (
          t.p,
          t.after,
          t.returns,
          record {
            blocks = t.blocks;
            list = t.list;
            safe = Served-IsSafe session s.blocks s.list s.safe size n _ t pos;
          },
        )
        | inr f ↦ inr (
          Count.failed (Count.allocate_call a),
          f.throws,
          record {
            blocks = s.blocks;
            list = s.list;
            safe = Refused-IsSafe session s.blocks s.list s.safe _;
          },
        )
      ]

  loop-Many :
      (start : Allocator) (count : ℕ) (out : List ℕ) (a : Allocator)
      → Takes size requested start out a
      → Serves a (out ++ held)
      → Many size requested start held
          (count + length out)
          (allocate_many_loop count size requested out a)
  unfolding allocate_many_loop
  loop-Many start zero out a t s = record {
    after = a;
    out = out;
    result = inl (t, refl, omega arith, s);
  }
  loop-Many start (suc count) out a t s = elim (take-Serves out a s) [
    | inl (p, a', run, s') ↦
        let rest = loop-Many start count (p ∷ out) a' (a, t, run) s' in
        let e : suc count + length out ≡ count + suc (length out) = omega arith in
        rw (e, run, allocate_many_loop) rest
    | inr (a', run, s') ↦
        let (a₂, back, each, s₂) = roll_back-Serves out held bad_alloc a' s' in
        rw (run, allocate_many_loop)
          (record { after = a₂; out = out; result = inr (a, a', t, run, each, back, s₂) })
  ]

  -- `allocate_many` of payloads of 1 to 2 ^ 61 bytes, at an alignment of at most 2 ^ 61, for a client that
  -- the allocator serves: it returns that many payloads, those of as many calls of `allocate`, which the
  -- client then holds too; or a call throws `bad_alloc`, each payload that the calls before it gave is given
  -- back by `deallocate`, `bad_alloc` goes on, and the client holds what it held before.
  pub allocate_many-Many :
      (count : ℕ) (a : Allocator)
      → Serves a held
      → Many size requested
          (Count.allocate_many_call a)
          held
          count
          (allocate_many size count requested a)
  unfolding allocate_many
  allocate_many-Many count a s =
      let a₀ = Count.allocate_many_call a in
      let session : Session = record { allocator = a; held = held } in
      let s₀ : Serves a₀ held = record {
        blocks = s.blocks;
        list = s.list;
        safe = Refused-IsSafe session s.blocks s.list s.safe a₀.counters;
      } in
      let e : count + 0 ≡ count = omega arith in rw e at (loop-Many a₀ count [] a₀ refl s₀)

-- `deallocate_many` of held payloads returns, and the client holds the others.
pub deallocate_many-Serves :
    (ps held : List ℕ) (a : Allocator)
    → Serves a (ps ++ held)
    → (a' : Allocator) × (deallocate_many ps a ≡ ok tt a') × Serves a' held
unfolding deallocate_many
deallocate_many-Serves ps held a s =
    let a₀ = Count.deallocate_many_call a in
    let session : Session = record { allocator = a; held = ps ++ held } in
    give_all-Serves ps held a₀ (record {
      blocks = s.blocks;
      list = s.list;
      safe = Refused-IsSafe session s.blocks s.list s.safe a₀.counters;
    })
