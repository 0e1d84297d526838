-- ===== src/Allocator/Start.antt =====
-- `initialize`: one free block behind the header of the manager.
use shm_next.Base.{
  ℕ, ◌+◌, ◌-◌, ◌%◌, ◌^◌, ◌≤◌, ◌<◌, ◌≡◌, refl, true, false, [], ◌∷◌, arith, ltb, ◌==◌, ◌+w◌, ◌-w◌,
  eq→==, ge→ltb,
}
use shm_next.Allocator.{Allocator, ok}
use shm_next.Allocator.Calls.{fresh, initialize}
use shm_next.Allocator.Invariant.{IsValid}
use shm_next.Allocator.Layout.{align_up}
use shm_next.Allocator.Layout.Align.{align_up-IsAlignedUp}

-- `initialize` of a segment that is aligned, ends below 2 ^ 63, has a size that is a multiple of 16,
-- and has room for the manager, a block header and 15 bytes returns a valid state: one free block
-- that ends with the segment and leaves the manager its bytes.
pub initialize-IsValid :
    (base header total : ℕ) (a : Allocator)
    → 0 < base
    → base % 16 ≡ 0
    → total % 16 ≡ 0
    → base + total < 2 ^ 63
    → header + 47 ≤ total
    → (a' : Allocator) × (first : ℕ) × (initialize base header total a ≡ ok tt a')
      × IsValid a' (first ∷ []) (first ∷ [])
      × (base + header ≤ first)
      × (a'.is_free first ≡ true)
      × (first + a'.size first ≡ base + total)
unfolding initialize
initialize-IsValid base header total a pos al al' small room =
    let up = align_up-IsAlignedUp header 16 (omega arith) (omega arith) in
    let h : ℕ = align_up header 16 in
    let e : h +w 32 ≡ h + 32 = omega (arith, up.below) in
    let e' : base +w h ≡ base + h = omega (arith, up.below) in
    let e'' : total -w h ≡ total - h = omega (arith, up.below) in
    let big : ltb total (h + 32) ≡ false =
      ge→ltb total (h + 32) (omega (arith, up.below, up.multiple)) in
    let self : (base + h == base + h) ≡ true = eq→== (base + h) (base + h) refl in
    rw (e, e', e'')
      (
        fresh base total (base + h) (total - h) a,
        base + h,
        rw big,
        record {
          blocks = record {
            base_pos = pos;
            first_ge = omega arith;
            spaced = omega (arith, up.multiple);
            small = small;
            chain = rw self (
              refl,
              omega (arith, up.below),
              omega (arith, up.multiple),
              omega (arith, up.below),
            );
          };
          listed = record {
            links = rw self (refl, omega arith, refl);
            sorted = ((λ y i. absurd (ground arith)), tt);
            within = λ q i. i;
          };
          exact = λ q i. ground arith;
          first = rw self;
        },
        omega (arith, up.above),
        rw self,
        rw self (omega (arith, up.below)),
      )
