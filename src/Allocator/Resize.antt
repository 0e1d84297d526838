-- ===== src/Allocator/Resize.antt =====
-- Calls that change the length of the segment: what they leave of the blocks in use.
use shm_next.Base.{ℕ, ◌≡◌, refl, true, false, List, has}
use shm_next.Allocator.{Allocator, Run, ok}
use shm_next.Allocator.Invariant.{IsValid}

-- From `a` to `a'`: the blocks in use stay, with their sizes and the headers in them.
pub record Stays (a : Allocator) (bs : List ℕ) (a' : Allocator) (bs' : List ℕ) : Type 0 where
  pub live :
      (q : ℕ)
      → has q bs ≡ true
      → a.is_free q ≡ false
      → (has q bs' ≡ true) × (a'.size q ≡ a.size q) × (a'.is_free q ≡ false)
  pub headers : a'.header_block ≡ a.header_block
  pub requests : a'.requested_size ≡ a.requested_size

-- A call that changed the length of the segment, or did not, and left the state valid.
pub record Resized {A : Type 0} (a : Allocator) (bs : List ℕ) (r : Run A) : Type 0 where
  pub answer : A
  pub after : Allocator
  pub blocks : List ℕ
  pub list : List ℕ
  pub returns : r ≡ ok answer after
  pub valid : IsValid after blocks list
  pub stays : Stays a bs after blocks

pub unchanged :
    {A : Type 0} (a : Allocator) (bs xs : List ℕ) (x : A) (r : Run A)
    → IsValid a bs xs
    → r ≡ ok x a
    → Resized a bs r
unchanged a bs xs x r v e = record {
  answer = x;
  after = a;
  blocks = bs;
  list = xs;
  returns = e;
  valid = v;
  stays = record { live = λ q i f. (i, refl, f); headers = refl; requests = refl };
}
