-- ===== src/OffsetPtr/Laws.antt =====
-- interprocess/allocator/offset_ptr.h: what is stored is read back, also where the segment is mapped
-- at another address.
use shm_next.Base.{
  ℕ, ◌+◌, ◌*◌, ◌%◌, ◌<◌, ◌≡◌, true, false, ◌⊎◌, none, some, arith, word, ◌+w◌, ◌-w◌, ℤ,
}
use shm_next.OffsetPtr.{
  max_offset, try_make_offset, set_pointer, get, assign, advance, retreat, equal, less,
}

-- A pointer that `set_pointer` has set to an address reads that address back.
pub get-set_pointer :
    (self ptr : ℕ) {o : ℤ}
    → self < word
    → ptr < word
    → set_pointer self ptr ≡ some o
    → get self o ≡ ptr
unfolding set_pointer try_make_offset get
get-set_pointer self ptr h h' e = ground arith

-- Where `set_pointer` throws, the target is the address behind the pointer's own, or further away than
-- `max_offset`.
pub set_pointer-none :
    (self ptr : ℕ)
    → self < word
    → ptr < word
    → set_pointer self ptr ≡ none
    → (ptr ≡ self + 1) ⊎ (self + max_offset < ptr) ⊎ (ptr + max_offset < self)
unfolding set_pointer try_make_offset
set_pointer-none self ptr h h' e = ground arith

-- The stored offset of a pointer that is not null names the same object in every mapping of the
-- segment: where the pointer and its target have moved by the same distance, it reads the moved target.
pub get-set_pointer_moved :
    (self ptr self' ptr' : ℕ) {o : ℤ}
    → self < word
    → ptr < word
    → self' < word
    → ptr' < word
    → 0 < ptr
    → self + ptr' ≡ self' + ptr
    → set_pointer self ptr ≡ some o
    → get self' o ≡ ptr'
unfolding set_pointer try_make_offset get
get-set_pointer_moved self ptr self' ptr' h h' k k' pos' e set = ground arith

get_lt : (from : ℕ) (o : ℤ) → get from o < word
unfolding get
get_lt from o = ground arith

-- A copy of a pointer at another address points to the same target.
pub get-assign :
    (self from : ℕ) (o : ℤ) {o' : ℤ}
    → self < word
    → from < word
    → assign self from o ≡ some o'
    → get self o' ≡ get from o
unfolding assign
get-assign self from o h h' e = get-set_pointer self (get from o) h (get_lt from o) e

-- Where neither throws, `+= n` and then `-= n` lead back to the same target.
pub retreat-advance :
    (self width n : ℕ) (o : ℤ) {o₁ o₂ : ℤ}
    → self < word
    → advance self width o n ≡ some o₁
    → retreat self width o₁ n ≡ some o₂
    → get self o₂ ≡ get self o
unfolding advance retreat
retreat-advance self width n o {o₁} h e e' =
    let there = get-set_pointer self (get self o +w n * width) h (omega arith) e in
    let back = get-set_pointer self (get self o₁ -w ((n * width) % word)) h (omega arith) e' in
    omega (arith, there, back, get_lt self o)

-- For two pointers at any addresses exactly one of `<`, `==` and `>` holds.
pub less-cases :
    (self other : ℕ) (o o' : ℤ)
    → ((less self other o o' ≡ true)
        × (equal self other o o' ≡ false)
        × (less other self o' o ≡ false))
      ⊎ ((less self other o o' ≡ false)
          × (equal self other o o' ≡ true)
          × (less other self o' o ≡ false))
      ⊎ ((less self other o o' ≡ false)
          × (equal self other o o' ≡ false)
          × (less other self o' o ≡ true))
unfolding less equal
less-cases self other o o' = ground arith
