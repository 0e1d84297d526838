-- ===== src/Allocator/Sessions/Safe.antt =====
-- A client of the block allocator: one call keeps its session safe.
use shm_next.Base.{
  ℕ, ◌-◌, ◌<◌, ◌≡◌, ◌≢◌, refl, true, false, List, ◌∷◌, arith, ltb, tests, ◌==◌, has, erase,
  Bool-cases, inl, inr, ◌∙◌, sym, ap, ==→eq, has-erase_self, has-of-erase, erase-Distinct,
}
use shm_next.Allocator.{Counters, Allocator, Run}
use shm_next.Allocator.Chain.{Chain-apart}
use shm_next.Allocator.Pointers.{IsLive, Released, deallocate-IsLive}
use shm_next.Allocator.Take.{Served, counted-IsValid}
use shm_next.Allocator.Sessions.{Session, block_of, IsSafe}

-- A pointer in use is not touched by an allocation.
pub record Spared (a : Allocator) (bs : List ℕ) (b p c q : ℕ) : Type 0 where
  pub live : IsLive a bs c q
  pub header : q - 16 ≢ p - 16
  pub block : c ≢ b

module _ {a : Allocator} {size n : ℕ} {bs : List ℕ} {r : Run ℕ} (t : Served a size n bs r)
    (pos : 0 < size) where
  new-IsLive : IsLive t.after t.blocks t.b t.p
  new-IsLive =
      let al = t.allocated in
      record {
        present = t.kept t.b al.was_free.0;
        used = al.now_taken;
        block = al.block;
        behind = al.behind;
        inside = omega (arith, al.within);
        within = rw al.requested al.within;
      }

  spared : (c q : ℕ) → IsLive a bs c q → Spared t.after t.blocks t.b t.p c q
  spared c q l =
      let al = t.allocated in
      let ne : c ≢ t.b = λ e. ground (arith, l.used, al.was_free, ap a.is_free e) in
      let (same, free) = al.others c l.present ne in
      let chain = t.valid.blocks.chain in
      let i = t.kept t.b al.was_free.0 in
      let j = t.kept c l.present in
      let away : q - 16 ≢ t.p - 16 = elim (Bool-cases (ltb c t.b)) [
        | inl lt ↦
            let apart = Chain-apart t.after.size _ _ c t.b t.blocks chain j i (omega tests) in
            omega (arith, l.inside, al.behind, apart, same, l.behind)
        | inr ge ↦
            let apart = Chain-apart t.after.size _ _ t.b c t.blocks chain i j (omega tests) in
            omega (arith, l.behind, al.within, al.behind, apart)
      ] in
      let (h, k) = al.headers (q - 16) away in
      record {
        live = record {
          present = j;
          used = free ∙ l.used;
          block = h ∙ l.block;
          behind = l.behind;
          inside = rw same l.inside;
          within = rw (same, k) l.within;
        };
        header = away;
        block = ne;
      }

abbrev pub after_take : ℕ → Allocator → Session → Session
after_take p a s = record { allocator = a; held = p ∷ s.held }

abbrev pub after_give : ℕ → Allocator → Session → Session
after_give p a s = record { allocator = a; held = erase p s.held }

module _ (s : Session) (bs xs : List ℕ) (safe : IsSafe s bs xs) where
  pub Served-IsSafe :
      (size n : ℕ) (r : Run ℕ) (t : Served s.allocator size n bs r)
      → 0 < size
      → IsSafe (after_take t.p t.after s) t.blocks t.list
  Served-IsSafe size n r t pos =
      let kept = λ (q : ℕ) (i : has q s.held ≡ true).
        spared t pos (block_of s.allocator q) q (safe.live q i) in
      let new = new-IsLive t pos in
      let new_out : has t.p s.held ≡ false = elim (Bool-cases (has t.p s.held)) [
        | inr out ↦ out
        | inl i ↦ absurd ((kept t.p i).header refl)
      ] in
      record {
        valid = t.valid;
        live = λ q i. elim (Bool-cases (q == t.p)) [
          | inl e ↦ rw (==→eq q t.p e) (rw new.block new)
          | inr e ↦ let k = kept q (ground arith) in rw k.live.block k.live
        ];
        apart = λ p q i j ne. elim (Bool-cases (p == t.p)) [
          | inl e ↦
              let bp = ap (block_of t.after) (==→eq p t.p e) ∙ new.block in
              let k = kept q (ground arith) in λ z. k.block (sym k.live.block ∙ sym z ∙ bp)
          | inr e ↦ elim (Bool-cases (q == t.p)) [
            | inl e' ↦
                let bq = ap (block_of t.after) (==→eq q t.p e') ∙ new.block in
                let k = kept p (ground arith) in λ z. k.block (sym k.live.block ∙ z ∙ bq)
            | inr e' ↦
                let i' : has p s.held ≡ true = ground arith in
                let j' : has q s.held ≡ true = ground arith in
                λ z.
                  safe.apart p q i' j' ne (sym (kept p i').live.block ∙ z ∙ (kept q j').live.block)
          ]
        ];
        distinct = (new_out, safe.distinct);
      }

  pub Refused-IsSafe :
      (c : Counters) → IsSafe (record s { allocator = record (s.allocator) { counters = c } }) bs xs
  Refused-IsSafe c = record {
    valid = counted-IsValid s.allocator c bs xs safe.valid;
    live = λ p i.
        let l = safe.live p i in
        record {
          present = l.present;
          used = l.used;
          block = l.block;
          behind = l.behind;
          inside = l.inside;
          within = l.within;
        };
    apart = safe.apart;
    distinct = safe.distinct;
  }

  pub Released-IsSafe :
      (p : ℕ) (r : Run (Unit {0})) (d : Released s.allocator bs (block_of s.allocator p) r)
      → has p s.held ≡ true
      → IsSafe (after_give p d.after s) d.blocks d.list
  Released-IsSafe p r d i =
      let h = λ (q : ℕ). ap (λ (f : ℕ → ℕ). f (q - 16)) d.grows.keeps.headers in
      let was = λ (q : ℕ) (j : has q (erase p s.held) ≡ true). has-of-erase p q s.held j in
      record {
        valid = d.valid;
        live = λ q j.
            let ne : q ≢ p = ground (arith, has-erase_self p s.held safe.distinct) in
            rw (h q) (deallocate-IsLive d (safe.live q (was q j)) (safe.apart q p (was q j) i ne));
        apart = λ q r j k ne. rw (h q, h r) (safe.apart q r (was q j) (was r k) ne);
        distinct = erase-Distinct p s.held safe.distinct;
      }
