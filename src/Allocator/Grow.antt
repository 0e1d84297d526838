-- ===== src/Allocator/Grow.antt =====
-- `grow`: the segment becomes longer at its end.
use shm_next.Base.{
  ℕ, ◌+◌, ◌-◌, ◌%◌, ◌^◌, ◌<◌, ◌≡◌, refl, true, false, List, [], ◌∷◌, ◌++◌, arith, ltb, leb, tests,
  ◌==◌, has, erase, Bool-cases, inl, inr, ◌+w◌, ◌-w◌, has-append,
}
use shm_next.Allocator.{Allocator, max_blocks}
use shm_next.Allocator.Chain.{Chain-Member}
use shm_next.Allocator.Calls.{grow}
use shm_next.Allocator.FreeList.Insert.{insert_by}
use shm_next.Allocator.FreeList.Links.{relink}
use shm_next.Allocator.Invariant.{IsValid, length_lt_max}
use shm_next.Allocator.Layout.{align_down}
use shm_next.Allocator.Neighbours.{segment_end-eq}
use shm_next.Allocator.Walks.{physical_previous}
use shm_next.Allocator.Walks.Along.{previous_loop-Chain}
use shm_next.Allocator.Resize.{Resized, unchanged}
use shm_next.Allocator.Room.{stretched, widened, appended, grow_tail, grow_append, out}

-- what `grow` makes of its argument
abbrev rounded : ℕ → ℕ
rounded requested = requested - requested % 16

module _ (a : Allocator) (bs xs : List ℕ) (v : IsValid a bs xs) (requested : ℕ)
    (longer : a.segment_size < rounded requested)
    (small : a.segment_base + rounded requested < 2 ^ 63)
    (long : leb (rounded requested) a.segment_size ≡ false) where
  abbrev stretch : Allocator
  stretch = stretched a bs xs v (rounded requested) longer small

  abbrev old_end : ℕ
  old_end = a.segment_base + a.segment_size

  extra : rounded requested -w a.segment_size ≡ rounded requested - a.segment_size
  extra = omega arith

  grow-tail :
      (t : ℕ)
      → physical_previous stretch old_end ≡ t
      → has t bs ≡ true
      → a.is_free t ≡ true
      → t + a.size t ≡ old_end
      → (rounded requested - a.segment_size) % 16 ≡ 0
      → Resized a bs (grow requested a)
  unfolding grow align_down
  grow-tail t e i free meet m =
      let member = Chain-Member a.size _ _ t bs v.blocks.chain i in
      let z : (t == 0) ≡ false =
        ground (arith, member.above, v.blocks.base_pos, v.blocks.first_ge) in
      let (h, k, h', k', run, run', valid) =
        grow_tail a bs xs v (rounded requested) longer small t i free meet m in
      let sum : a.size t +w (rounded requested - a.segment_size)
          ≡ a.size t + (rounded requested - a.segment_size) =
        omega (arith, member.above, meet) in
      record {
        answer = true;
        after = relink h' k' (widened a bs xs v (rounded requested) longer small t h k);
        blocks = bs;
        list =
            insert_by (widened a bs xs v (rounded requested) longer small t h k).size t
              (erase t xs);
        returns = rw (long, segment_end-eq a bs v.blocks, e, z, free, extra, run, sum, run') refl;
        valid = valid;
        stays = record { live = λ q j f. (j, ground arith, f); headers = refl; requests = refl };
      }

  grow-append :
      (t : ℕ)
      → physical_previous stretch old_end ≡ t
      → a.is_free t ≡ false
      → (rounded requested - a.segment_size) % 16 ≡ 0
      → Resized a bs (grow requested a)
  unfolding grow align_down
  grow-append t e used m = elim (Bool-cases (ltb (rounded requested - a.segment_size) 48)) [
    | inl less ↦
        unchanged a bs xs false (grow requested a) v
          (rw (long, segment_end-eq a bs v.blocks, e, used, extra, less) (ground arith))
    | inr room ↦
        let (h, k, run, valid) =
          grow_append a bs xs v (rounded requested) longer small m (omega tests) in
        let gone = out a bs xs v (rounded requested) longer small in
        record {
          answer = true;
          after = relink h k (appended a bs xs v (rounded requested) longer small);
          blocks = bs ++ old_end ∷ [];
          list = insert_by (appended a bs xs v (rounded requested) longer small).size old_end xs;
          returns =
              rw (long, segment_end-eq a bs v.blocks, e, used, extra, room, run) (ground arith);
          valid = valid;
          stays = record {
            live = λ q j f. (
              ground (arith, has-append q bs (old_end ∷ [])),
              ground (arith, gone),
              ground (arith, gone),
            );
            headers = refl;
            requests = refl;
          };
        }
  ]

  grow-long : a.segment_base % 16 ≡ 0 → Resized a bs (grow requested a)
  unfolding physical_previous
  grow-long al =
      elim (previous_loop-Chain stretch _ (omega (arith, v.blocks.small)) (max_blocks stretch + 1)
        old_end a.first_block 0 bs v.blocks.chain (inr refl)
        (omega (arith, length_lt_max a bs v.blocks))) [
          | inl (e, run) ↦
              let member = Chain-Member a.size _ _ a.first_block bs v.blocks.chain v.first in
              absurd (omega (arith, member.below, member.large))
          | inr (r, i, meet, run) ↦
              let member = Chain-Member a.size _ _ r bs v.blocks.chain i in
              let m : (rounded requested - a.segment_size) % 16 ≡ 0 =
                omega (arith, member.rounded, member.spaced, v.blocks.spaced, meet) in
              elim (Bool-cases (a.is_free r)) [
                | inl free ↦ grow-tail r run i free meet m
                | inr used ↦ grow-append r run used m
              ]
        ]

-- `grow` in a valid state at an aligned base, to a length that ends below 2 ^ 63, returns: the state is
-- valid, and the blocks in use stay, with their sizes and headers.
pub grow-Resized :
    (a : Allocator) (bs xs : List ℕ) (requested : ℕ)
    → IsValid a bs xs
    → a.segment_base % 16 ≡ 0
    → a.segment_base + requested < 2 ^ 63
    → Resized a bs (grow requested a)
unfolding grow align_down
grow-Resized a bs xs requested v al small =
    elim (Bool-cases (leb (rounded requested) a.segment_size)) [
      | inl short ↦ unchanged a bs xs false (grow requested a) v (rw short refl)
      | inr long ↦ grow-long a bs xs v requested (ground arith) (omega arith) long al
    ]
