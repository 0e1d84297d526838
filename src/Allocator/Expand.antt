-- ===== src/Allocator/Expand.antt =====
-- `try_expand`: a payload in use becomes larger where it stands.
use shm_next.Base.{
  ℕ, ◌+◌, ◌-◌, ◌%◌, ◌^◌, ◌≤◌, ◌<◌, ◌≡◌, refl, Bool, true, false, not, List, some, arith, ltb, leb,
  leb→le, ◌==◌, if◌then◌else◌, Bool-cases, inl, inr, ==→eq, ◌-w◌,
}
use shm_next.Allocator.{Allocator, Run, M, ok}
use shm_next.Allocator.Count
use shm_next.Allocator.Chain.{Chain-Member}
use shm_next.Allocator.Calls.{try_expand, expand_into_next, set_requested, aligned}
use shm_next.Allocator.Invariant.{IsValid}
use shm_next.Allocator.Layout.{make_layout, normalize_alignment}
use shm_next.Allocator.Layout.Align.{IsNormal, normalize_alignment-IsNormal}
use shm_next.Allocator.Layout.Bounds.{make_layout-Fits}
use shm_next.Allocator.Neighbours.{physical_next-cases}
use shm_next.Allocator.Pointers.{IsLive, has_allocation_header-payload, is_valid_payload-within}
use shm_next.Allocator.Take.{counted-IsValid}
use shm_next.Allocator.Enlarge.{Expanded, Ready, failed, enlarged}
use shm_next.Allocator.Combine.{combined_size, expand_into_next-Ready}

aligned-some :
    {A : Type 0} (requested n : ℕ) (k : ℕ → M A) (a : Allocator)
    → normalize_alignment requested ≡ some n
    → aligned requested k a ≡ k n a
aligned-some requested n k a e = rw (e, aligned) refl

module _ (a : Allocator) (bs xs : List ℕ) (b p size requested : ℕ) (v : IsValid a bs xs)
    (l : IsLive a bs b p) (pos : 0 < size) (small : size ≤ 2 ^ 61) where
  abbrev counted : Allocator
  counted = Count.expand_call a

  counted_first-IsValid : IsValid counted bs xs
  counted_first-IsValid = counted-IsValid a counted.counters bs xs v

  near : p -w 16 ≡ p - 16
  near =
      let m = Chain-Member a.size _ _ b bs v.blocks.chain l.present in
      omega (arith, m.below, v.blocks.small, l.behind, l.inside)

  -- what is left of `try_expand` when its tests have passed
  abbrev decided : ℕ → Run Bool
  decided n =
      let layout = make_layout b size n in
      if not (layout.payload == p)
      then ok false (Count.expand_failure counted)
      else if leb layout.total_size (a.size b)
      then ok true (Count.expand_success (set_requested p size counted))
      else expand_into_next p size b layout.total_size counted

  try_expand_run :
      (n : ℕ) → normalize_alignment requested ≡ some n → try_expand p size requested a ≡ decided n
  unfolding try_expand
  try_expand_run n e =
      let z : (p == 0) ≡ false = ground (arith, l.behind) in
      let z' : (size == 0) ≡ false = ground arith in
      let hh =
        has_allocation_header-payload counted bs xs b p counted_first-IsValid l.present l.behind
          l.inside in
      let vp =
        is_valid_payload-within counted bs xs b p counted_first-IsValid l.present l.behind l.inside
          l.within in
      rw (near, z, z', l.block) (rw (hh, vp, l.used) (aligned-some requested n _ counted e))

  into_next :
      (u : ℕ)
      → 32 ≤ u
      → u % 16 ≡ 0
      → p + size ≤ b + u
      → Expanded a bs b p size (expand_into_next p size b u counted)
  unfolding expand_into_next
  into_next u lo m room =
      let refuse =
        failed a bs xs b p size v l (expand_into_next p size b u counted)
          (Count.expand_failure counted).counters in
      elim (physical_next-cases counted bs counted_first-IsValid.blocks b l.present) [
        | inl (none_next, end) ↦ refuse (rw none_next refl)
        | inr (e, more) ↦ elim (Bool-cases (a.is_free (b + a.size b))) [
          | inr used ↦ refuse (rw (e, used) (ground arith))
          | inl free ↦
              let mem = Chain-Member a.size _ _ (b + a.size b) bs v.blocks.chain more in
              let z : (b + a.size b == 0) ≡ false = ground (arith, l.behind, l.inside) in
              let sum =
                combined_size counted bs xs b counted_first-IsValid l.present l.used (b + a.size b)
                  refl more free in
              elim (Bool-cases (ltb (a.size b + a.size (b + a.size b)) u)) [
                | inl less ↦ refuse (rw (e, z, free, sum, less) refl)
                | inr enough ↦
                    let (a', bs', xs', run, ready, fits) =
                      expand_into_next-Ready counted bs xs b counted_first-IsValid l.present l.used
                        (b + a.size b) refl more free p size u e (ground arith) lo m (ground arith)
                        near in
                    enlarged a bs xs b p size v l a' bs' xs' (expand_into_next p size b u counted)
                      (record {
                        valid = ready.valid;
                        present = ready.present;
                        used = ready.used;
                        live = ready.live;
                        headers = ready.headers;
                        requests = ready.requests;
                      })
                      pos (omega (arith, room, fits)) run
              ]
        ]
      ]

  whole-Ready : Ready a bs b counted bs xs
  whole-Ready = record {
    valid = counted_first-IsValid;
    present = l.present;
    used = l.used;
    live = λ q i ne f. (i, refl, f);
    headers = refl;
    requests = refl;
  }

  decided-Expanded :
      (n : ℕ) → IsNormal requested 16 n → n ≤ 2 ^ 62 → Expanded a bs b p size (decided n)
  decided-Expanded n is near_n =
      let mem = Chain-Member a.size _ _ b bs v.blocks.chain l.present in
      let f =
        make_layout-Fits b size n (omega (arith, is.bound))
          (omega (arith, mem.below, v.blocks.small)) in
      let refuse =
        failed a bs xs b p size v l (decided n) (Count.expand_failure counted).counters in
      let total : ℕ = (make_layout b size n).total_size in
      elim (Bool-cases ((make_layout b size n).payload == p)) [
        | inr elsewhere ↦ refuse (rw elsewhere refl)
        | inl here ↦
            let at : (make_layout b size n).payload ≡ p = ==→eq _ p here in
            let room : p + size ≤ b + total = rw at at f.within in
            elim (Bool-cases (leb total (a.size b))) [
              | inl fits ↦
                  enlarged a bs xs b p size v l counted bs xs (decided n) whole-Ready pos
                    (omega (arith, room, leb→le total (a.size b) fits)) (rw (here, fits, near) refl)
              | inr more ↦
                  rw (here, more) (into_next total (omega (arith, room, l.behind)) f.rounded room)
            ]
      ]

  -- `try_expand` of a payload pointer in use, in a valid state and to 1 to 2 ^ 61 bytes at an alignment of
  -- at most 2 ^ 61, returns true or false. The state is valid, all pointers in use still are, and the
  -- pointer has the new size where the answer is true, and its old one where it is false.
  pub try_expand-Expanded :
      requested ≤ 2 ^ 61 → Expanded a bs b p size (try_expand p size requested a)
  try_expand-Expanded modest =
      let (n, e, is) = normalize_alignment-IsNormal requested (omega arith) in
      rw (try_expand_run n e) (decided-Expanded n is (omega (arith, is.least)))
