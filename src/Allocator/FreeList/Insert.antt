-- ===== src/Allocator/FreeList/Insert.antt =====
-- `insert_free_block` inserts in order.
use shm_next.Base.{
  ℕ, zero, suc, ◌<◌, ◌≡◌, ◌≢◌, refl, false, List, [], ◌∷◌, arith, ◌==◌, if◌then◌else◌, has,
  Distinct, length, update, Bool-cases, eq→==, inl, inr, ◌∙◌,
}
use shm_next.Allocator.{Allocator, ok}
use shm_next.Allocator.FreeList.{before, insert_loop}
use shm_next.Allocator.FreeList.Links.{Links, Links-frame, relink, link}

-- The list with `block` in its place.
abbrev pub insert_by : (ℕ → ℕ) → ℕ → List ℕ → List ℕ
insert_by size block [] = block ∷ []
insert_by size block (x ∷ xs) =
    if before size x block then x ∷ insert_by size block xs else block ∷ x ∷ xs

abbrev head_at : Allocator → (prev block : ℕ) → ℕ
head_at a prev block = if prev == 0 then block else a.free_list_head

abbrev next_at : Allocator → (prev block curr : ℕ) → ℕ → ℕ
next_at a prev block curr =
    let next = update a.next_free block curr in if prev == 0 then next else update next prev block

-- Links `h` and `n` after an insertion behind `prev`.
pub record Inserted (a : Allocator) (prev block : ℕ) (xs ys : List ℕ) (h : ℕ) (n : ℕ → ℕ)
    : Type 0 where
  pub links : Links n (link h n prev) ys
  pub other : (q : ℕ) → q ≢ prev → q ≢ block → has q xs ≡ false → n q ≡ a.next_free q
  pub head : prev ≢ 0 → h ≡ a.free_list_head

module _ (a : Allocator) (block : ℕ) (pos : 0 < block) where
  Inserted-here :
      (prev curr : ℕ) (xs : List ℕ)
      → Links a.next_free curr xs
      → has block xs ≡ false
      → has prev xs ≡ false
      → prev ≢ block
      → Inserted a prev block xs (block ∷ xs) (head_at a prev block) (next_at a prev block curr)
  Inserted-here prev curr xs l nb np ne =
      let e : next_at a prev block curr block ≡ curr = ground arith in
      record {
        links = (ground arith, pos, Links-frame a.next_free _ _ xs (rw e l) λ q i. ground arith);
        other = ground arith;
        head = ground arith;
      }

  Inserted-step :
      (prev x : ℕ) (xs ys : List ℕ) (h : ℕ) (n : ℕ → ℕ)
      → 0 < x
      → link a.free_list_head a.next_free prev ≡ x
      → has prev (x ∷ xs) ≡ false
      → prev ≢ block
      → Inserted a x block xs ys h n
      → Inserted a prev block (x ∷ xs) (x ∷ ys) h n
  Inserted-step prev x xs ys h n px at np ne ins = record {
    links = (ground (arith, ins.other prev, ins.head), px, ground (arith, ins.links));
    other = λ q qp qb qs. ins.other q (ground arith) qb (ground arith);
    head = λ p. ins.head (ground arith);
  }

  pub insert_loop-Inserted :
      (fuel prev curr : ℕ) (xs : List ℕ)
      → Links a.next_free curr xs
      → link a.free_list_head a.next_free prev ≡ curr
      → Distinct xs
      → length xs < fuel
      → has block xs ≡ false
      → has prev xs ≡ false
      → prev ≢ block
      → (h : ℕ) × (n : ℕ → ℕ) × (insert_loop fuel prev curr block a ≡ ok tt (relink h n a))
        × Inserted a prev block xs (insert_by a.size block xs) h n
  unfolding insert_loop
  insert_loop-Inserted zero prev curr xs l at d f nb np ne = absurd (omega arith)
  insert_loop-Inserted (suc fuel) prev curr [] l at d f nb np ne =
      (_, _, rw (eq→== curr 0 l), Inserted-here prev curr [] l nb np ne)
  insert_loop-Inserted (suc fuel) prev curr (x ∷ xs) l at d f nb np ne =
      rw l.0 (elim (Bool-cases (before a.size x block)) [
        | inr stop ↦ (
          head_at a prev block,
          next_at a prev block x,
          rw (nonzero, stop),
          rw stop (Inserted-here prev x (x ∷ xs) (refl, l.1, l.2) nb np ne),
        )
        | inl go ↦
            let (h, n, run, ins) =
              insert_loop-Inserted fuel x (a.next_free x) xs l.2 (ground arith) d.1 (omega arith)
                (ground arith) d.0 (ground arith) in
            (
              h,
              n,
              rw (nonzero, go) run,
              rw go (Inserted-step prev x xs _ h n l.1 (at ∙ l.0) np ne ins),
            )
      ])
    where
      nonzero : (x == 0) ≡ false
      nonzero = ground arith
