-- ===== src/Allocator/Layout/Align.antt =====
-- shared_memory_block_allocator.h: `normalize_alignment` and `align_up`.
use native.Mathlib.Nat.{pow-suc, mod-lt, mul-mod_right, div-add-mod}
use shm_next.Base.{
  ℕ, zero, suc, ◌+◌, ◌-◌, ◌*◌, ◌/◌, ◌%◌, ◌^◌, ◌≤◌, ◌<◌, ◌≡◌, refl, sym, ◌∙◌, ◌⊎◌, inl, inr, none,
  some, arith, ltb, lt→ltb, Bool-cases, word, tests, ◌+w◌, ◌-w◌,
}
use shm_next.Allocator.Layout.{align_up, normalize_loop, normalize_alignment}

pow_pos : (k : ℕ) → 0 < 2 ^ k
pow_pos zero = omega arith
pow_pos (suc k) = rw pow-suc (omega (arith, pow_pos k))

le-of-mul-eq : (a b c : ℕ) → a * b ≡ c → 0 < b → a ≤ c
le-of-mul-eq a b c e h = grind arith

-- What a result of the loop is: `n` doubled some times, a divisor of 2 ^ 63, and the least one that
-- reaches `requested`.
pub record IsNormal (requested n r : ℕ) : Type 0 where
  pub reaches : requested ≤ r
  pub least : (r ≡ n) ⊎ (r < 2 * requested)
  pub bound : n ≤ r
  pub cofactor : ℕ
  pub divides : r * cofactor ≡ 2 ^ 63
  pub multiple : r % 16 ≡ 0

double_step : (n k : ℕ) → n * 2 ^ suc k ≡ 2 ^ 63 → (n * 2) * 2 ^ k ≡ 2 ^ 63
double_step n k e = sym (rw pow-suc (omega arith)) ∙ e

stays : (n : ℕ) → n * 2 ^ zero ≡ 2 ^ 63 → n ≡ 2 ^ 63
stays n e = omega arith

doubled :
    {requested n r : ℕ} → n < requested → IsNormal requested (n * 2) r → IsNormal requested n r
doubled lt is = record {
  reaches = is.reaches;
  least = inr (omega arith);
  bound = omega arith;
  cofactor = is.cofactor;
  divides = is.divides;
  multiple = is.multiple;
}

normalize_loop-IsNormal :
    (fuel requested n k : ℕ)
    → n * 2 ^ k ≡ 2 ^ 63
    → n % 16 ≡ 0
    → requested ≤ 2 ^ 63
    → k < fuel
    → (r : ℕ) × (normalize_loop fuel requested n ≡ some r) × IsNormal requested n r
unfolding normalize_loop
normalize_loop-IsNormal zero requested n k e m h f = absurd (omega arith)
normalize_loop-IsNormal (suc fuel) requested n k e m h f = elim (Bool-cases (ltb n requested)) [
  | inr done ↦ (
    n,
    rw done,
    record {
      reaches = omega tests;
      least = inl refl;
      bound = omega arith;
      cofactor = 2 ^ k;
      divides = e;
      multiple = m;
    },
  )
  | inl more ↦
      again k e f (omega tests)
        λ j e' f'. normalize_loop-IsNormal fuel requested (n * 2) j e' (omega arith) h f'
]
  where
    again :
        (k : ℕ)
        → n * 2 ^ k ≡ 2 ^ 63
        → k < suc fuel
        → n < requested
        → ((j : ℕ)
            → (n * 2) * 2 ^ j ≡ 2 ^ 63
            → j < fuel
            → (r : ℕ) × (normalize_loop fuel requested (n * 2) ≡ some r)
              × IsNormal requested (n * 2) r)
        → (r : ℕ) × (normalize_loop (suc fuel) requested n ≡ some r) × IsNormal requested n r
    again zero e f lt rec = absurd (omega (arith, stays n e))
    again (suc j) e f lt rec =
        let (r, run, is) = rec j (double_step n j e) (omega arith) in
        let small : n * 2 ≤ 2 ^ 63 =
          le-of-mul-eq (n * 2) (2 ^ j) (2 ^ 63) (double_step n j e) (pow_pos j) in
        let same : (n * 2) % word ≡ n * 2 = omega arith in
        (r, rw (lt→ltb n requested lt, same) run, doubled lt is)

-- For a request of at most 2 ^ 63, `normalize_alignment` returns a divisor of 2 ^ 63, so a power of two,
-- that is a multiple of 16, reaches the request, and is 16 or less than twice the request.
pub normalize_alignment-IsNormal :
    (requested : ℕ)
    → requested ≤ 2 ^ 63
    → (r : ℕ) × (normalize_alignment requested ≡ some r) × IsNormal requested 16 r
unfolding normalize_alignment
normalize_alignment-IsNormal requested h =
    normalize_loop-IsNormal 64 requested 16 59 refl refl h (omega arith)

normalize_loop_zero : (fuel requested : ℕ) → 0 < requested → normalize_loop fuel requested 0 ≡ none
unfolding normalize_loop
normalize_loop_zero zero requested h = refl
normalize_loop_zero (suc fuel) requested h =
    rw (lt→ltb 0 requested h) (normalize_loop_zero fuel requested h)

-- For a request above 2 ^ 63 the loop of `normalize_alignment` has no result, whatever the number of
-- rounds, from any power of two: the doubled word wraps to 0.
pub normalize_loop-endless :
    (fuel requested n k : ℕ)
    → n * 2 ^ k ≡ 2 ^ 63
    → 2 ^ 63 < requested
    → normalize_loop fuel requested n ≡ none
unfolding normalize_loop
normalize_loop-endless zero requested n k e h = refl
normalize_loop-endless (suc fuel) requested n zero e h =
    let top = stays n e in
    let wraps : (n * 2) % word ≡ 0 = omega arith in
    rw (lt→ltb n requested (omega arith), wraps) (normalize_loop_zero fuel requested (omega arith))
normalize_loop-endless (suc fuel) requested n (suc k) e h =
    let e' = double_step n k e in
    let small : n * 2 ≤ 2 ^ 63 = le-of-mul-eq (n * 2) (2 ^ k) (2 ^ 63) e' (pow_pos k) in
    let same : (n * 2) % word ≡ n * 2 = omega arith in
    rw (lt→ltb n requested (omega arith), same)
      (normalize_loop-endless fuel requested (n * 2) k e' h)

-- `align_up` gives the multiple of `align` in [value, value + align).
pub record IsAlignedUp (value align r : ℕ) : Type 0 where
  pub above : value ≤ r
  pub below : r < value + align
  pub multiple : r % align ≡ 0

sub-mod-multiple : (v align : ℕ) → (v - v % align) % align ≡ 0
sub-mod-multiple v align =
    let e : v - v % align ≡ align * (v / align) = omega (arith, div-add-mod v align) in
    rw e (mul-mod_right align (v / align))

pub align_up-IsAlignedUp :
    (value align : ℕ)
    → 0 < align
    → value + align ≤ word
    → IsAlignedUp value align (align_up value align)
unfolding align_up
align_up-IsAlignedUp value align p h =
    let e : value +w (align -w 1) ≡ value + align - 1 = omega arith in
    let small : (value + align - 1) % align < align = mod-lt (value + align - 1) p in
    rw e (record {
      above = omega arith;
      below = omega arith;
      multiple = sub-mod-multiple (value + align - 1) align;
    })
