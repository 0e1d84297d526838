-- ===== src/Allocator/Pointers.antt =====
-- Pointers that a client holds, and `deallocate` of one.
use shm_next.Base.{
  ℕ, ◌+◌, ◌-◌, ◌%◌, ◌≤◌, ◌<◌, ◌≡◌, ◌≢◌, true, false, List, arith, ◌==◌, has, ◌∙◌, ◌+w◌, ◌-w◌,
}
use shm_next.Allocator.{Counters, Allocator, Run, ok}
use shm_next.Allocator.Count
use shm_next.Allocator.Chain.{Chain-Member}
use shm_next.Allocator.Calls.{deallocate_block, deallocate}
use shm_next.Allocator.Invariant.{IsValid}
use shm_next.Allocator.Neighbours.{segment_end-eq, is_block_in_chain-has}
use shm_next.Allocator.Loose.{Grows}
use shm_next.Allocator.Release.{deallocate_block-IsValid}
use shm_next.Allocator.Take.{counted-IsValid}
use shm_next.Allocator.Walks.{has_allocation_header, is_valid_payload, is_block_in_chain}

-- `p` is a payload in block `b`, which is in use: the header in front of it names the block, and
-- the bytes asked for lie in the block, behind both headers.
pub record IsLive (a : Allocator) (bs : List ℕ) (b p : ℕ) : Type 0 where
  pub present : has b bs ≡ true
  pub used : a.is_free b ≡ false
  pub block : a.header_block (p - 16) ≡ b
  pub behind : b + 48 ≤ p
  pub inside : p < b + a.size b
  pub within : p + a.requested_size (p - 16) ≤ b + a.size b

module _ (a : Allocator) (bs xs : List ℕ) (b p : ℕ) (v : IsValid a bs xs) (i : has b bs ≡ true)
    (behind : b + 48 ≤ p) (inside : p < b + a.size b) where
  pub has_allocation_header-payload : has_allocation_header a p ≡ true
  unfolding has_allocation_header
  has_allocation_header-payload =
      let m = Chain-Member a.size _ _ b bs v.blocks.chain i in
      let w : p -w 16 ≡ p - 16 = omega (arith, m.below, v.blocks.small) in
      let e = segment_end-eq a bs v.blocks in
      rw (e, w)
        (ground (arith, m.above, m.below, v.blocks.base_pos, v.blocks.first_ge, v.blocks.small))

  pub is_valid_payload-within :
      p + a.requested_size (p - 16) ≤ b + a.size b → is_valid_payload a p b ≡ true
  unfolding is_valid_payload
  is_valid_payload-within within =
      let m = Chain-Member a.size _ _ b bs v.blocks.chain i in
      let w : p -w 16 ≡ p - 16 = omega (arith, m.below, v.blocks.small) in
      let w' : b +w 32 +w 16 ≡ b + 48 = omega (arith, m.below, v.blocks.small) in
      let w'' : b +w a.size b ≡ b + a.size b = omega (arith, m.below, v.blocks.small) in
      let al : b % 16 ≡ 0 = omega (arith, m.spaced, v.blocks.spaced) in
      let chained : is_block_in_chain a b ≡ true = is_block_in_chain-has a bs v.blocks b ∙ i in
      rw (has_allocation_header-payload, segment_end-eq a bs v.blocks, w, w', w'', al, chained)
        (ground
          (arith, m.above, m.below, m.large, v.blocks.base_pos, v.blocks.first_ge, v.blocks.small))

uncounted :
    {a a' : Allocator} {c : Counters} {b b' : ℕ} {bs bs' : List ℕ}
    → Grows (record a { counters = c }) b bs a' b' bs'
    → Grows a b bs a' b' bs'
uncounted g = record {
  keeps = record {
    base = g.keeps.base;
    total = g.keeps.total;
    first = g.keeps.first;
    headers = g.keeps.headers;
    requests = g.keeps.requests;
  };
  from = g.from;
  to = g.to;
  live = g.live;
}

-- A run of `deallocate` that got past its tests.
deallocate_run :
    (a a' : Allocator) (p b : ℕ)
    → (p == 0) ≡ false
    → a.header_block (p -w 16) ≡ b
    → has_allocation_header (Count.deallocate_call a) p ≡ true
    → is_valid_payload (Count.deallocate_call a) p b ≡ true
    → a.is_free b ≡ false
    → deallocate_block b (Count.deallocate_call a) ≡ ok tt a'
    → deallocate p a ≡ ok tt a'
unfolding deallocate
deallocate_run a a' p b z hb hh vp used run = rw z (rw (hb, hh, vp, used) run)

-- What `deallocate` of a pointer of block `b` leaves: block `b'` is free and covers `b`.
pub record Released (a : Allocator) (bs : List ℕ) (b : ℕ) (r : Run (Unit {0})) : Type 0 where
  pub b' : ℕ
  pub after : Allocator
  pub blocks : List ℕ
  pub list : List ℕ
  pub returns : r ≡ ok tt after
  pub valid : IsValid after blocks list
  pub grows : Grows a b bs after b' blocks
  pub free : after.is_free b' ≡ true
  pub present : has b' blocks ≡ true

-- In a valid state `deallocate` of a payload pointer in use returns: the state is valid again, and a
-- free block covers the released one; the other blocks in use keep their size.
pub deallocate-Released :
    (a : Allocator) (bs xs : List ℕ) (b p : ℕ)
    → IsValid a bs xs
    → IsLive a bs b p
    → Released a bs b (deallocate p a)
deallocate-Released a bs xs b p v l =
    let a₀ = Count.deallocate_call a in
    let v₀ = counted-IsValid a a₀.counters bs xs v in
    let m = Chain-Member a.size _ _ b bs v.blocks.chain l.present in
    let w : p -w 16 ≡ p - 16 = omega (arith, m.below, v.blocks.small, l.behind, l.inside) in
    let (b', a', bs', xs', run, v', g, free, i) =
      deallocate_block-IsValid a₀ b bs xs v₀ l.present l.used in
    record {
      b' = b';
      after = a';
      blocks = bs';
      list = xs';
      returns =
          deallocate_run a a' p b (ground (arith, l.behind)) (rw w l.block)
            (has_allocation_header-payload a₀ bs xs b p v₀ l.present l.behind l.inside)
            (is_valid_payload-within a₀ bs xs b p v₀ l.present l.behind l.inside l.within) l.used
            run;
      valid = v';
      grows = uncounted g;
      free = free;
      present = i;
    }

-- After `deallocate` of another block, a payload pointer in use is still one.
pub deallocate-IsLive :
    {a : Allocator} {bs : List ℕ} {b b₂ p₂ : ℕ} {r : Run (Unit {0})} (d : Released a bs b r)
    → IsLive a bs b₂ p₂
    → b₂ ≢ b
    → IsLive d.after d.blocks b₂ p₂
deallocate-IsLive {b₂} {p₂} d l ne =
    let (i, _, s, f) = d.grows.live b₂ l.present ne l.used in
    let h = d.grows.keeps.headers in
    let q = d.grows.keeps.requests in
    record {
      present = i;
      used = f;
      block = rw h l.block;
      behind = l.behind;
      inside = rw s l.inside;
      within = rw (s, q) l.within;
    }
