-- ===== src/OffsetPtr.antt =====
-- interprocess/allocator/offset_ptr.h: a pointer kept as the distance from its own address.
--
-- Addresses are below 2 ^ 64; the null pointer is 0. The offset is an `int64_t`, here an integer:
-- the code makes only offsets in range. A pointer to elements of `width` bytes moves by multiples
-- of `width`. The template and its specialisations for `void` and `const void` share these
-- definitions; `none` is the exception `std::out_of_range`.
pub mod Laws
use shm_next.Base.{
  ℕ, ◌+◌, ◌-◌, ◌*◌, ◌%◌, ◌^◌, Bool, true, false, not, ◌||◌, ◌&&◌, Option, none, some, ltb, leb,
  ◌==◌, if◌then◌else◌, word, ◌+w◌, ◌-w◌, ℤ, pos, negsuc, neg,
}

abbrev pub max_offset : ℕ
max_offset = 2 ^ 63 - 1

-- `detail::offset_ptr_null`
abbrev pub offset_ptr_null : ℤ
offset_ptr_null = pos 1

abbrev pub is_null : ℤ → Bool
is_null (pos n) = n == 1
is_null (negsuc n) = false

unfoldable pub try_make_offset : (self ptr : ℕ) → Option ℤ
try_make_offset self ptr =
    let ahead = ptr -w self in
    let back = self -w ptr in
    if leb self ptr
    then if ltb max_offset ahead || (ahead == 1) then none else some (pos ahead)
    else if ltb max_offset back
    then none
    else some (neg back)

-- `make_offset` and `set_pointer`
unfoldable pub set_pointer : (self ptr : ℕ) → Option ℤ
set_pointer self ptr = if ptr == 0 then some offset_ptr_null else try_make_offset self ptr

-- the address `offset` bytes from `self`
abbrev pub displace : ℕ → ℤ → ℕ
displace self (pos n) = self +w n
displace self (negsuc n) = self -w (n + 1)

unfoldable pub get : (self : ℕ) → ℤ → ℕ
get self offset = if is_null offset then 0 else displace self offset

-- the copy constructor and the assignments from another pointer, which lies at `from`
unfoldable pub assign : (self from : ℕ) → ℤ → Option ℤ
assign self from offset = set_pointer self (get from offset)

-- `+=` and `-=`, and with n = 1 `++` and `--`, on elements of `width` bytes
unfoldable pub advance : (self width : ℕ) → ℤ → ℕ → Option ℤ
advance self width offset n = set_pointer self (get self offset +w n * width)

unfoldable pub retreat : (self width : ℕ) → ℤ → ℕ → Option ℤ
retreat self width offset n = set_pointer self (get self offset -w ((n * width) % word))

-- `==`, `<` and `<=` compare the targets.
unfoldable pub equal : (self other : ℕ) → (offset offset' : ℤ) → Bool
equal self other offset offset' = get self offset == get other offset'

unfoldable pub less : (self other : ℕ) → (offset offset' : ℤ) → Bool
less self other offset offset' = ltb (get self offset) (get other offset')
