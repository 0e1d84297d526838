-- ===== src/Vector.antt =====
-- interprocess/container/shared_memory_vector.h: an array that grows.
--
-- The elements stand in slots, and the address of a slot counts slots: `p + n` is the n-th one behind
-- `p`, the null pointer is 0. `cell p` is the object in slot p, where one was constructed there and not
-- destroyed since. `std::move_if_noexcept` in `reallocate` is a copy: the model is of element types
-- whose move constructor may throw, for which it is one, or leaves the source as it was, as for types
-- that are copied bytewise. A reference to an element is the address of its slot. The allocator, and what the
-- element type does, are parameters. An exception of a pointer that is out of range is not modelled:
-- all slots lie in one segment.
pub mod Calls
pub mod Slots
pub mod Ends
pub mod Copies
pub mod Growth
pub mod Reallocate
pub mod Contents
pub mod Shrinking
pub mod Refine
pub mod Erase
use shm_next.Base.{
  ℕ, zero, suc, ◌+◌, ◌-◌, ◌*◌, ◌%◌, Bool, true, false, not, ◌&&◌, Option, none, some, ltb, leb,
  ◌==◌, if◌then◌else◌, update, word,
}

-- `allocate` throws where it gives no address, `construct` and `assign` where they give `false`, and
-- `construct_default` where it gives no value.
pub record ElementAllocator (A W : Type 0) : Type 0 where
  pub allocate : (count : ℕ) → W → Option ℕ × W
  pub try_expand : (p old_count new_count : ℕ) → W → Bool × W
  pub deallocate : (p count : ℕ) → W → W
  pub construct : ℕ → A → W → Bool × W
  pub construct_default : ℕ → W → Option A × W
  pub assign : ℕ → A → W → Bool × W
  pub destroy : ℕ → A → W → W

pub record Vector (A W : Type 0) : Type 0 where
  pub start : ℕ
  pub finish : ℕ
  pub end_of_storage : ℕ
  pub cell : ℕ → Option A
  pub world : W

-- A call returns or throws, and leaves a state; or it reads, or destroys, an object that is not there,
-- which is undefined; or a loop of it has used up its fuel.
pub data Run (A W B : Type 0) : Type 0 where
  done : B → Vector A W → Run A W B
  thrown : Vector A W → Run A W B
  undefined : Run A W B
  endless : Run A W B

abbrev pub Call : Type 0 → Type 0 → Type 0 → Type 0
Call A W B = Vector A W → Run A W B

module _ {A W : Type 0} where
  abbrev pub pure : {B : Type 0} → B → Call A W B
  pure x v = done x v

  abbrev pub and_then : {B C : Type 0} → Run A W B → (B → Call A W C) → Run A W C
  and_then (done x v) k = k x v
  and_then (thrown v) k = thrown v
  and_then undefined k = undefined
  and_then endless k = endless

  infixl 5 ◌>>=◌ ◌>>◌
  abbrev pub ◌>>=◌ : {B C : Type 0} → Call A W B → (B → Call A W C) → Call A W C
  ◌>>=◌ m k v = and_then (m v) k

  abbrev pub ◌>>◌ : {B C : Type 0} → Call A W B → Call A W C → Call A W C
  m >> n = m >>= λ _. n

  -- `try { m } catch (...) { handler; throw; }`
  abbrev pub rescue : Run A W (Unit {0}) → Call A W (Unit {0}) → Run A W (Unit {0})
  rescue (done x v) handler = done x v
  rescue (thrown v) handler = and_then (handler v) λ _ w. thrown w
  rescue undefined handler = undefined
  rescue endless handler = endless

  abbrev pub modify : (Vector A W → Vector A W) → Call A W (Unit {0})
  modify f v = done tt (f v)

  abbrev pub pointers : (start finish end_of_storage : ℕ) → Vector A W → Vector A W
  pointers s f e v = record v { start = s; finish = f; end_of_storage = e }

  abbrev pub put : ℕ → Option A → W → Vector A W → Vector A W
  put p o w v = record v { cell = update v.cell p o; world = w }

  abbrev pub size : Vector A W → ℕ
  size v = if v.start == 0 then 0 else v.finish - v.start

  abbrev pub capacity : Vector A W → ℕ
  capacity v = if v.start == 0 then 0 else v.end_of_storage - v.start

  abbrev pub is_empty : Vector A W → Bool
  is_empty v = size v == 0

  -- the object in a slot
  abbrev pub read : ℕ → Call A W A
  read p v = elim (v.cell p) [ none ↦ undefined | some x ↦ done x v ]

  -- `at`, which throws `std::out_of_range`
  unfoldable pub at_index : ℕ → Call A W A
  at_index n v = if leb (size v) n then thrown v else read (v.start + n) v

module _ {A W : Type 0} (al : ElementAllocator A W) where
  unfoldable pub construct_value : ℕ → A → Call A W (Unit {0})
  construct_value p x v =
      let (made, w) = al.construct p x v.world in
      if made then done tt (put p (some x) w v) else thrown (record v { world = w })

  -- `construct(p, *source)`
  abbrev pub construct : (p source : ℕ) → Call A W (Unit {0})
  construct p source = read source >>= construct_value p

  unfoldable pub construct_default : ℕ → Call A W (Unit {0})
  construct_default p v =
      let (made, w) = al.construct_default p v.world in
      elim made [ none ↦ thrown (record v { world = w }) | some x ↦ done tt (put p (some x) w v) ]

  unfoldable pub destroy : ℕ → Call A W (Unit {0})
  destroy p v = elim (v.cell p) [
    | none ↦ undefined
    | some x ↦ done tt (put p none (al.destroy p x v.world) v)
  ]

  abbrev pub deallocate : (p count : ℕ) → Call A W (Unit {0})
  deallocate p count = modify λ v. record v { world = al.deallocate p count v.world }

  unfoldable pub destroy_range : (p count : ℕ) → Call A W (Unit {0})
  destroy_range p zero = pure tt
  destroy_range p (suc count) = destroy p >> destroy_range (p + 1) count

  -- the loop that constructs copies at `to` of what stands at `from`, with `undo` when one throws
  unfoldable pub copy_loop :
      (left constructed from to : ℕ) → (undo : ℕ → Call A W (Unit {0})) → Call A W (Unit {0})
  copy_loop zero constructed from to undo v = done tt v
  copy_loop (suc left) constructed from to undo v =
      elim (construct (to + constructed) (from + constructed) v) [
        | done _ w ↦ copy_loop left (suc constructed) from to undo w
        | thrown w ↦ rescue (thrown w) (undo constructed)
        | undefined ↦ undefined
        | endless ↦ endless
      ]

  -- `destroy_range(new_data, constructed); allocator.deallocate(new_data, count);`
  abbrev pub undo_copies : (to count constructed : ℕ) → Call A W (Unit {0})
  undo_copies to count constructed = destroy_range to constructed >> deallocate to count

  abbrev pub if_storage : ℕ → Call A W (Unit {0}) → Call A W (Unit {0})
  if_storage p call = if p == 0 then pure tt else call

  unfoldable pub move_storage : (new_data new_capacity : ℕ) → Call A W (Unit {0})
  move_storage new_data new_capacity v =
      let old_size = size v in
      let old_capacity = capacity v in
      let old_data = v.start in
      (do
        copy_loop old_size 0 old_data new_data (undo_copies new_data new_capacity)
        destroy_range old_data old_size
        if_storage old_data (deallocate old_data old_capacity)
        modify (pointers new_data (new_data + old_size) (new_data + new_capacity)))
        v

  -- `reallocate` where the block could not be expanded
  unfoldable pub reallocate_elsewhere : ℕ → Call A W (Unit {0})
  reallocate_elsewhere new_capacity v =
      let (given, w) = al.allocate new_capacity v.world in
      elim given [
        | none ↦ thrown (record v { world = w })
        | some new_data ↦ move_storage new_data new_capacity (record v { world = w })
      ]

  unfoldable pub reallocate : ℕ → Call A W (Unit {0})
  reallocate new_capacity v =
      let (expanded, w) = al.try_expand v.start (capacity v) new_capacity v.world in
      if not (v.start == 0) && ltb (capacity v) new_capacity
      then if expanded
        then done tt
            (pointers v.start (v.start + size v) (v.start + new_capacity) (record v { world = w }))
        else reallocate_elsewhere new_capacity (record v { world = w })
      else reallocate_elsewhere new_capacity v

  unfoldable pub reserve : ℕ → Call A W (Unit {0})
  reserve new_capacity v =
      if ltb (capacity v) new_capacity then reallocate new_capacity v else done tt v

  -- room for one more element
  unfoldable pub make_room : Call A W (Unit {0})
  make_room v =
      if v.finish == v.end_of_storage
      then reallocate (if capacity v == 0 then 1 else (capacity v * 2) % word) v
      else done tt v

  -- `finish += 1`
  abbrev pub move_finish : Call A W (Unit {0})
  move_finish = modify λ v. record v { finish = v.finish + 1 }

  -- `push_back(const T&)`, for the object in slot `source`
  unfoldable pub push_back : (source : ℕ) → Call A W (Unit {0})
  push_back source = do make_room; λ v. construct v.finish source v; move_finish

  -- `emplace_back`; `args` reads what the forwarded references refer to, once there is room
  unfoldable pub emplace_back : (args : Call A W A) → Call A W (Unit {0})
  emplace_back args = do make_room; λ v. (args >>= construct_value v.finish) v; move_finish

  unfoldable pub pop_back : Call A W (Unit {0})
  pop_back v =
      if is_empty v then done tt v else destroy (v.finish - 1) (record v { finish = v.finish - 1 })

  -- `while (size() > new_size) pop_back();`
  unfoldable pub pop_loop : (fuel new_size : ℕ) → Call A W (Unit {0})
  pop_loop zero new_size v = endless
  pop_loop (suc fuel) new_size v =
      if ltb new_size (size v) then (pop_back >> pop_loop fuel new_size) v else done tt v

  unfoldable pub destroy_tail : (new_size : ℕ) → Call A W (Unit {0})
  destroy_tail new_size v = pop_loop (size v + 1) new_size v

  unfoldable pub clear : Call A W (Unit {0})
  clear v = pop_loop (size v + 1) 0 v

  unfoldable pub release_storage : Call A W (Unit {0})
  release_storage v =
      if_storage v.start (do clear; λ w. deallocate w.start (capacity w) w; modify (pointers 0 0 0))
        v
