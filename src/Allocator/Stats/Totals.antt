-- ===== src/Allocator/Stats/Totals.antt =====
-- shared_memory_block_allocator.h: what `get_stats` reports of a valid state.
use shm_next.Base.{
  ℕ, Bool, ◌≤◌, zero, suc, ◌+◌, ◌-◌, ◌%◌, ◌^◌, ◌<◌, ◌≡◌, refl, true, false, not, ◌||◌, List, [],
  ◌∷◌, arith, ltb, ◌==◌, if◌then◌else◌, word, ◌+w◌, ◌-w◌, length, Bool-cases, inl, inr, eq→==, ap,
  length-le_of_has, Links, ◌∙◌, lt→ltb, ge→ltb,
}
use shm_next.Allocator.{Allocator, segment_end, max_blocks}
use shm_next.Allocator.Walks.{is_aligned_address, bad_size}
use shm_next.Allocator.Chain.{Chain, Chain-le, Chain-Member}
use shm_next.Allocator.FreeList.Order.{Sorted-Distinct}
use shm_next.Allocator.Invariant.{IsValid, length_lt_max}
use shm_next.Allocator.Neighbours.{segment_end-eq}
use shm_next.Allocator.Sanity.{check_sanity-true}
use shm_next.Allocator.Stats.{
  SharedMemoryAllocatorStats, no_stats, count_free, count_allocated, stats_loop, free_seen_loop,
  get_stats,
}

-- the bytes of all blocks that were counted
abbrev bytes : SharedMemoryAllocatorStats → ℕ
bytes s = s.free_block_bytes + s.allocated_block_bytes

-- the sum of `value` over the blocks that pass the test
abbrev pub total : (test : ℕ → Bool) → (value : ℕ → ℕ) → List ℕ → ℕ
total test value [] = 0
total test value (p ∷ bs) = (if test p then value p else 0) + total test value bs

-- the greatest `value` of the blocks that pass the test, or `least` where it is greater
abbrev pub greatest : (test : ℕ → Bool) → (value : ℕ → ℕ) → (least : ℕ) → List ℕ → ℕ
greatest test value least [] = least
greatest test value least (p ∷ bs) =
    greatest test value (if test p then if ltb least (value p) then value p else least else least)
      bs

abbrev pub in_use : Allocator → ℕ → Bool
in_use a p = not (a.is_free p)

-- What the walk along the blocks `bs` counts, each by its kind.
record Kinds (a : Allocator) (s : SharedMemoryAllocatorStats) (bs : List ℕ)
    (s' : SharedMemoryAllocatorStats) : Type 0 where
  free : s'.free_block_count ≡ s.free_block_count + total a.is_free (λ _. 1) bs
  free_bytes : s'.free_block_bytes ≡ s.free_block_bytes + total a.is_free a.size bs
  payload : s'.free_payload_bytes ≡ s.free_payload_bytes + total a.is_free (λ p. a.size p - 32) bs
  taken : s'.allocated_block_count ≡ s.allocated_block_count + total (in_use a) (λ _. 1) bs
  taken_bytes : s'.allocated_block_bytes ≡ s.allocated_block_bytes + total (in_use a) a.size bs
  largest : s'.largest_free_block ≡ greatest a.is_free a.size s.largest_free_block bs
  largest_payload :
      s'.largest_free_payload ≡ greatest a.is_free (λ p. a.size p - 32) s.largest_free_payload bs

-- The counts after a walk along `n` blocks of together `d` bytes.
record Adds (s : SharedMemoryAllocatorStats) (n d : ℕ) (s' : SharedMemoryAllocatorStats)
    : Type 0 where
  blocks : s'.block_count ≡ s.block_count + n
  kinds :
      s'.free_block_count + s'.allocated_block_count
      ≡ s.free_block_count + s.allocated_block_count + n
  all : bytes s' ≡ bytes s + d
  managed : s'.managed_bytes ≡ s.managed_bytes

record Room (s : SharedMemoryAllocatorStats) (d : ℕ) : Type 0 where
  counts : s.block_count ≡ s.free_block_count + s.allocated_block_count
  blocks : s.block_count + d < word
  all : bytes s + d < word
  payload : s.free_payload_bytes ≤ s.free_block_bytes

abbrev counted : Allocator → ℕ → SharedMemoryAllocatorStats → SharedMemoryAllocatorStats
counted a p s = if a.is_free p then count_free (a.size p) s else count_allocated (a.size p) s

counted-Adds :
    (a : Allocator) (p d : ℕ) (s : SharedMemoryAllocatorStats)
    → 32 ≤ a.size p
    → Room s (a.size p + d)
    → Adds s 1 (a.size p) (counted a p s) × Room (counted a p s) d
unfolding count_free count_allocated
counted-Adds a p d s pos r = elim (Bool-cases (a.is_free p)) [
  | inl free ↦ rw free (
    record {
      blocks = omega (arith, r.blocks, pos);
      kinds = omega (arith, r.blocks, r.counts, pos);
      all = omega (arith, r.all);
      managed = refl;
    },
    record {
      counts = omega (arith, r.blocks, r.counts, pos);
      blocks = omega (arith, r.blocks, pos);
      all = omega (arith, r.all);
      payload = omega (arith, r.payload, r.all, pos);
    },
  )
  | inr taken ↦ rw taken (
    record {
      blocks = omega (arith, r.blocks, pos);
      kinds = omega (arith, r.blocks, r.counts, pos);
      all = omega (arith, r.all);
      managed = refl;
    },
    record {
      counts = omega (arith, r.blocks, r.counts, pos);
      blocks = omega (arith, r.blocks, pos);
      all = omega (arith, r.all);
      payload = omega (arith, r.payload, r.all, pos);
    },
  )
]

counted-Kinds :
    (a : Allocator) (p d : ℕ) (bs : List ℕ) (s s' : SharedMemoryAllocatorStats)
    → 32 ≤ a.size p
    → Room s (a.size p + d)
    → Kinds a (counted a p s) bs s'
    → Kinds a s (p ∷ bs) s'
unfolding count_free count_allocated
counted-Kinds a p d bs s s' pos r k = elim (Bool-cases (a.is_free p)) [
  | inl free ↦
      let k' : Kinds a (count_free (a.size p) s) bs s' = rw free at k in
      let minus : a.size p -w 32 ≡ a.size p - 32 = omega (arith, pos, r.all) in
      record {
        free = rw free (omega (arith, k'.free, r.blocks, r.counts, pos));
        free_bytes = rw free (omega (arith, k'.free_bytes, r.all));
        payload = rw free (omega (arith, k'.payload, r.payload, r.all, pos));
        taken = rw free (omega (arith, k'.taken));
        taken_bytes = rw free (omega (arith, k'.taken_bytes));
        largest = rw free k'.largest;
        largest_payload = rw free (
            k'.largest_payload
            ∙ ap
                (λ z.
                  greatest a.is_free (λ q. a.size q - 32)
                    (if ltb s.largest_free_payload z then z else s.largest_free_payload) bs)
                minus);
      }
  | inr taken ↦
      let k' : Kinds a (count_allocated (a.size p) s) bs s' = rw taken at k in
      record {
        free = rw taken (omega (arith, k'.free));
        free_bytes = rw taken (omega (arith, k'.free_bytes));
        payload = rw taken (omega (arith, k'.payload));
        taken = rw taken (omega (arith, k'.taken, r.blocks, r.counts, pos));
        taken_bytes = rw taken (omega (arith, k'.taken_bytes, r.all));
        largest = rw taken k'.largest;
        largest_payload = rw taken k'.largest_payload;
      }
]

no-Kinds : (a : Allocator) (s : SharedMemoryAllocatorStats) → Kinds a s [] s
no-Kinds a s = record {
  free = omega arith;
  free_bytes = omega arith;
  payload = omega arith;
  taken = omega arith;
  taken_bytes = omega arith;
  largest = refl;
  largest_payload = refl;
}

module _ (a : Allocator) (e : ℕ) (end : segment_end a ≡ e) (small : e < 2 ^ 63) where
  stats_loop-Adds :
      (visits p : ℕ) (bs : List ℕ) (s : SharedMemoryAllocatorStats)
      → Chain a.size p e bs
      → p % 16 ≡ 0
      → length bs < visits
      → Room s (e - p)
      → ((stats_loop visits a p s).0 ≡ true)
        × Adds s (length bs) (e - p) (stats_loop visits a p s).1
        × Kinds a s bs (stats_loop visits a p s).1
  unfolding stats_loop
  stats_loop-Adds zero p bs s c al f r = absurd (omega arith)
  stats_loop-Adds (suc visits) p [] s c al f r =
      rw (end, ge→ltb p e (omega (arith, c)), eq→== p e c)
        (
          refl,
          record {
            blocks = omega arith;
            kinds = omega arith;
            all = omega (arith, c);
            managed = refl;
          },
          no-Kinds a s,
        )
  stats_loop-Adds (suc visits) p (x ∷ bs) s (h, large, m, c) al f r =
      let le = Chain-le a.size (x + a.size x) e bs c in
      let d : e - p ≡ a.size x + (e - (x + a.size x)) = omega (arith, le, h) in
      let room : Room s (a.size x + (e - (x + a.size x))) = record {
        counts = r.counts;
        blocks = omega (arith, r.blocks, d);
        all = omega (arith, r.all, d);
        payload = r.payload;
      } in
      let now = counted-Adds a x (e - (x + a.size x)) s large room in
      let rest =
        stats_loop-Adds visits (x + a.size x) bs (counted a x s) c (omega (arith, m, al, h))
          (omega arith) now.1 in
      let inside : ltb x e ≡ true = lt→ltb x e (omega (arith, large, le)) in
      let next : x +w a.size x ≡ x + a.size x = omega (arith, le, small) in
      let good : (not (is_aligned_address x) || bad_size a x || ltb e (x + a.size x)) ≡ false =
        ground (arith, large, m, al, h, le) in
      rw (h, end, inside, next, good)
        (
          rest.0,
          record {
            blocks = omega (arith, rest.1.blocks, now.0.blocks);
            kinds = omega (arith, rest.1.kinds, now.0.kinds);
            all = omega (arith, rest.1.all, now.0.all);
            managed = rest.1.managed ∙ now.0.managed;
          },
          counted-Kinds a x (e - (x + a.size x)) bs s _ large room rest.2,
        )

free_seen_loop-length :
    (a : Allocator) (visits curr seen : ℕ) (xs : List ℕ)
    → Links a.next_free curr xs
    → length xs < visits
    → free_seen_loop visits a curr seen ≡ (true, seen + length xs)
unfolding free_seen_loop
free_seen_loop-length a zero curr seen xs l f = absurd (omega arith)
free_seen_loop-length a (suc visits) curr seen [] l f =
    rw (eq→== curr 0 l) (ap (λ n. (true, n)) (omega arith))
free_seen_loop-length a (suc visits) curr seen (x ∷ xs) (h, pos, l) f =
    let z : (x == 0) ≡ false = ground arith in
    rw (h, z)
      (free_seen_loop-length a visits (a.next_free x) (seen + 1) xs l (omega arith)
        ∙ ap (λ n. (true, n)) (omega arith))

-- What the statistics say of a state with the blocks `bs` and the free list `xs`.
pub record Reports (a : Allocator) (bs xs : List ℕ) (s : SharedMemoryAllocatorStats) : Type 0 where
  pub sane : s.sane ≡ true
  pub managed : a.first_block + s.managed_bytes ≡ a.segment_base + a.segment_size
  pub bytes : s.free_block_bytes + s.allocated_block_bytes ≡ s.managed_bytes
  pub blocks : s.block_count ≡ length bs
  pub kinds : s.free_block_count + s.allocated_block_count ≡ s.block_count
  pub listed : s.free_list_count ≡ length xs
  pub free : s.free_block_count ≡ total a.is_free (λ _. 1) bs
  pub free_bytes : s.free_block_bytes ≡ total a.is_free a.size bs
  pub payload : s.free_payload_bytes ≡ total a.is_free (λ p. a.size p - 32) bs
  pub taken : s.allocated_block_count ≡ total (in_use a) (λ _. 1) bs
  pub taken_bytes : s.allocated_block_bytes ≡ total (in_use a) a.size bs
  pub largest : s.largest_free_block ≡ greatest a.is_free a.size 0 bs
  pub largest_payload : s.largest_free_payload ≡ greatest a.is_free (λ p. a.size p - 32) 0 bs
  pub totals : s.totals ≡ a.counters

-- In a valid state `get_stats` finds the allocator sane, the blocks fill the managed bytes, and the free
-- list is counted whole. The counts and the bytes of the free blocks, the bytes in them behind their
-- headers, the greatest of each, and the counts and the bytes of the blocks in use are those of the free
-- blocks and of the blocks in use; the totals are the allocator's counters.
pub get_stats-Reports :
    (a : Allocator) (bs xs : List ℕ) → IsValid a bs xs → Reports a bs xs (get_stats a)
unfolding get_stats
get_stats-Reports a bs xs v =
    let b = v.blocks in
    let e : ℕ = a.segment_base + a.segment_size in
    let m = Chain-Member a.size _ _ a.first_block bs b.chain v.first in
    let end = segment_end-eq a bs b in
    let z₁ : (a.segment_base == 0) ≡ false = ground (arith, b.base_pos) in
    let z₂ : (a.segment_size == 0) ≡ false = ground (arith, m.below, m.large, b.first_ge) in
    let z₃ : (a.first_block == 0) ≡ false = ground (arith, b.base_pos, b.first_ge) in
    let inside : ltb a.first_block e ≡ true =
      lt→ltb a.first_block e (omega (arith, m.below, m.large)) in
    let managed : e -w a.first_block ≡ e - a.first_block = omega (arith, m.below, b.small) in
    let zeroed : SharedMemoryAllocatorStats = record (no_stats a.segment_size) {
      managed_bytes = e - a.first_block;
    } in
    let walk =
      stats_loop-Adds a e end b.small (max_blocks a) a.first_block bs zeroed b.chain b.spaced
        (length_lt_max a bs b)
        (record {
          counts = refl;
          blocks = omega (arith, b.small);
          all = omega (arith, b.small);
          payload = omega arith;
        }) in
    let few = length-le_of_has xs bs (Sorted-Distinct a.size xs v.listed.sorted) v.listed.within in
    let seen =
      free_seen_loop-length a (max_blocks a) a.free_list_head 0 xs v.listed.links
        (omega (arith, few, length_lt_max a bs b)) in
    rw (z₁, z₂, z₃, end, inside, managed, seen, walk.0, check_sanity-true a bs xs v)
      (record {
        sane = refl;
        managed = omega (arith, walk.1.managed, m.below);
        bytes = omega (arith, walk.1.all, walk.1.managed);
        blocks = omega (arith, walk.1.blocks);
        kinds = omega (arith, walk.1.kinds, walk.1.blocks);
        listed = omega arith;
        free = omega (arith, walk.2.free);
        free_bytes = omega (arith, walk.2.free_bytes);
        payload = omega (arith, walk.2.payload);
        taken = omega (arith, walk.2.taken);
        taken_bytes = omega (arith, walk.2.taken_bytes);
        largest = walk.2.largest;
        largest_payload = walk.2.largest_payload;
        totals = refl;
      })
