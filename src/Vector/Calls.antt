-- ===== src/Vector/Calls.antt =====
-- shared_memory_vector.h: the calls that resize, erase, assign and copy.
use shm_next.Base.{ℕ, zero, suc, ◌+◌, ◌-◌, none, some, ltb, ◌==◌, if◌then◌else◌}
use shm_next.Vector.{
  ElementAllocator, Vector, done, thrown, undefined, endless, Call, pure, ◌>>=◌, ◌>>◌, rescue,
  modify, pointers, put, size, capacity, read, construct, construct_default, destroy, destroy_range,
  deallocate, copy_loop, undo_copies, reallocate, destroy_tail, release_storage, clear,
}

module _ {A W : Type 0} (al : ElementAllocator A W) where
  -- The loop of `construct_default_tail` and `construct_fill_tail`, from `start + constructed` on;
  -- `make` constructs one element. What was made is destroyed where one throws.
  unfoldable pub tail_loop :
      (left from constructed : ℕ) → (make : ℕ → Call A W (Unit {0})) → Call A W (Unit {0})
  tail_loop zero from constructed make v = done tt v
  tail_loop (suc left) from constructed make v = elim (make (v.start + constructed) v) [
    | done _ w ↦ tail_loop left from (suc constructed) make w
    | thrown w ↦ rescue (thrown w) (
        destroy_range al (w.start + from) (constructed - from)
        >> modify λ u. record u { finish = u.start + from })
    | undefined ↦ undefined
    | endless ↦ endless
  ]

  unfoldable pub construct_tail :
      (from to : ℕ) → (make : ℕ → Call A W (Unit {0})) → Call A W (Unit {0})
  construct_tail from to make = do
    tail_loop (to - from) from from make
    modify λ v. record v { finish = v.start + to }

  -- `resize_default` and `resize_fill`
  unfoldable pub resize_with : (make : ℕ → Call A W (Unit {0})) → (count : ℕ) → Call A W (Unit {0})
  resize_with make count v =
      let old_size = size v in
      if ltb count old_size
      then destroy_tail al count v
      else if count == old_size
      then done tt v
      else ((λ w. if ltb (capacity w) count then reallocate al count w else done tt w)
            >> construct_tail old_size count make)
          v

  unfoldable pub resize : (count : ℕ) → Call A W (Unit {0})
  resize count = resize_with (construct_default al) count

  -- `resize(count, value)`, for the object in slot `source`
  unfoldable pub resize_fill : (count source : ℕ) → Call A W (Unit {0})
  resize_fill count source = resize_with (λ p. construct al p source) count

  unfoldable pub assign_value : (pos : ℕ) → A → Call A W (Unit {0})
  assign_value pos x v =
      let (made, w) = al.assign pos x v.world in
      if made then done tt (put pos (some x) w v) else thrown (record v { world = w })

  -- `*pos = std::move(*next)`
  abbrev pub assign_slot : (pos next : ℕ) → Call A W (Unit {0})
  assign_slot pos next = read next >>= assign_value pos

  unfoldable pub erase_loop : (fuel pos : ℕ) → Call A W (Unit {0})
  erase_loop zero pos v = endless
  erase_loop (suc fuel) pos v =
      if pos + 1 == v.finish
      then done tt v
      else (assign_slot pos (pos + 1) >> erase_loop fuel (pos + 1)) v

  unfoldable pub erase : (pos : ℕ) → Call A W ℕ
  erase pos v =
      if pos == v.finish
      then done pos v
      else (do
        erase_loop (size v) pos
        λ w. destroy al (w.finish - 1) (record w { finish = w.finish - 1 })
        pure pos)
          v

  -- `assign_from` a vector with `n` elements at `source`
  unfoldable pub assign_from : (source n : ℕ) → Call A W (Unit {0})
  assign_from source n v =
      let (given, w) = al.allocate n v.world in
      if n == 0 then release_storage al v else elim given [
        | none ↦ thrown (record v { world = w })
        | some new_data ↦
            (do
              copy_loop al n 0 source new_data (undo_copies al new_data n)
              release_storage al
              modify (pointers new_data (new_data + n) (new_data + n)))
              (record v { world = w })
      ]

  unfoldable pub reallocate_exact : (new_capacity : ℕ) → Call A W (Unit {0})
  reallocate_exact new_capacity =
      (λ v. if v.start == 0 then done tt v else release_storage al v) >> λ v.
      let (given, w) = al.allocate new_capacity v.world in
      elim given [
        | none ↦ thrown (record v { world = w })
        | some new_data ↦
            done tt (pointers new_data new_data (new_data + new_capacity) (record v { world = w }))
      ]

  -- The copy constructor, of a vector with `n` elements at `source`. The new vector has no storage yet.
  unfoldable pub copy : (source n : ℕ) → Call A W (Unit {0})
  copy source n v =
      if n == 0
      then done tt v
      else (do
        reallocate_exact n
        λ w.
            copy_loop al n 0 source w.start
              (λ constructed. do
                destroy_range al w.start constructed
                λ u. deallocate al u.start (capacity u) u
                modify (pointers 0 0 0))
              w
        modify λ w. record w { finish = w.start + n })
          v

  -- the destructor
  unfoldable pub destroy_vector : Call A W (Unit {0})
  destroy_vector = do
    clear al
    λ v. if v.start == 0 then done tt v else deallocate al v.start (capacity v) v

-- The move constructor: the new vector, and what is left of the other one.
unfoldable pub move : {A W : Type 0} → Vector A W → Vector A W × Vector A W
move v = (v, pointers 0 0 0 v)

-- `front` and `back`
module _ {A W : Type 0} where
  unfoldable pub front : Call A W A
  front v = read v.start v

  unfoldable pub back : Call A W A
  back v = read (v.finish - 1) v
