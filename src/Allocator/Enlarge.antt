-- ===== src/Allocator/Enlarge.antt =====
-- `try_expand`: the pointers in use after its last writes.
use shm_next.Base.{
  ℕ, ◌+◌, ◌-◌, ◌≤◌, ◌<◌, ◌≡◌, ◌≢◌, refl, Bool, true, false, List, arith, ltb, tests, ◌==◌,
  if◌then◌else◌, has, Bool-cases, inl, inr, update,
}
use shm_next.Allocator.{Allocator, Counters, Run, ok}
use shm_next.Allocator.Count
use shm_next.Allocator.Chain.{Chain-apart}
use shm_next.Allocator.Invariant.{IsValid}
use shm_next.Allocator.Pointers.{IsLive}
use shm_next.Allocator.Take.{counted-IsValid}

-- What `try_expand` of the pointer `p` of block `b` leaves, whether it returned true or false: a valid
-- state, in which the pointer is still in use, with the new size where the answer is true, and all
-- other pointers in use still are.
pub record Expanded (a : Allocator) (bs : List ℕ) (b p size : ℕ) (r : Run Bool) : Type 0 where
  pub answer : Bool
  pub after : Allocator
  pub blocks : List ℕ
  pub list : List ℕ
  pub returns : r ≡ ok answer after
  pub valid : IsValid after blocks list
  pub mine : IsLive after blocks b p
  pub asked : after.requested_size (p - 16) ≡ (if answer then size else a.requested_size (p - 16))
  pub others : (c q : ℕ) → IsLive a bs c q → c ≢ b → IsLive after blocks c q

-- From `a` to `a'`, in front of the last writes: `b` and the other blocks in use are there.
pub record Ready (a : Allocator) (bs : List ℕ) (b : ℕ) (a' : Allocator) (bs' xs' : List ℕ)
    : Type 0 where
  pub valid : IsValid a' bs' xs'
  pub present : has b bs' ≡ true
  pub used : a'.is_free b ≡ false
  pub live :
      (q : ℕ)
      → has q bs ≡ true
      → q ≢ b
      → a.is_free q ≡ false
      → (has q bs' ≡ true) × (a'.size q ≡ a.size q) × (a'.is_free q ≡ false)
  pub headers : a'.header_block ≡ a.header_block
  pub requests : a'.requested_size ≡ a.requested_size

module _ (a : Allocator) (bs xs : List ℕ) (b p size : ℕ) (v : IsValid a bs xs)
    (l : IsLive a bs b p) where
  cells_apart : (c q : ℕ) → IsLive a bs c q → c ≢ b → q - 16 ≢ p - 16
  cells_apart c q k ne = elim (Bool-cases (ltb c b)) [
    | inl lt ↦
        let apart =
          Chain-apart a.size _ _ c b bs v.blocks.chain k.present l.present (omega tests) in
        omega (arith, k.inside, k.behind, l.behind, apart)
    | inr ge ↦
        let apart =
          Chain-apart a.size _ _ b c bs v.blocks.chain l.present k.present (omega tests) in
        omega (arith, l.inside, l.behind, k.behind, apart)
  ]

  pub failed :
      (r : Run Bool) (c : Counters)
      → r ≡ ok false (record a { counters = c })
      → Expanded a bs b p size r
  failed r c e = record {
    answer = false;
    after = record a { counters = c };
    blocks = bs;
    list = xs;
    returns = e;
    valid = counted-IsValid a c bs xs v;
    mine = record {
      present = l.present;
      used = l.used;
      block = l.block;
      behind = l.behind;
      inside = l.inside;
      within = l.within;
    };
    asked = refl;
    others = λ d q k ne. record {
      present = k.present;
      used = k.used;
      block = k.block;
      behind = k.behind;
      inside = k.inside;
      within = k.within;
    };
  }

  abbrev done : Allocator → Allocator
  done a' =
      Count.expand_success (record a' { requested_size = update a'.requested_size (p - 16) size })

  pub enlarged :
      (a' : Allocator) (bs' xs' : List ℕ) (r : Run Bool)
      → Ready a bs b a' bs' xs'
      → 0 < size
      → p + size ≤ b + a'.size b
      → r ≡ ok true (done a')
      → Expanded a bs b p size r
  enlarged a' bs' xs' r d pos room e = record {
    answer = true;
    after = done a';
    blocks = bs';
    list = xs';
    returns = e;
    valid = record {
      blocks = d.valid.blocks;
      listed = d.valid.listed;
      exact = d.valid.exact;
      first = d.valid.first;
    };
    mine = record {
      present = d.present;
      used = d.used;
      block = rw d.headers l.block;
      behind = l.behind;
      inside = omega (arith, room);
      within = ground (arith, room);
    };
    asked = ground arith;
    others = λ c q k ne.
        let (i, s, f) = d.live c k.present ne k.used in
        let away : (q - 16 == p - 16) ≡ false = ground (arith, cells_apart c q k ne) in
        record {
          present = i;
          used = f;
          block = rw d.headers k.block;
          behind = k.behind;
          inside = rw s k.inside;
          within = rw (away, s, d.requests) k.within;
        };
  }
