-- ===== src/SharedList/Splicing.antt =====
-- shared_memory_list.h: the calls that move nodes within a list or from one list to another.
--
-- Two lists stand in the same nodes. `std::stable_sort` is a parameter, from the values' order to what
-- it does to a vector of nodes. `none` is a loop that used up its fuel.
use shm_next.Base.{
  ℕ, zero, suc, ◌+◌, ◌+w◌, ◌-w◌, Bool, true, false, ◌||◌, Option, none, some, List, [], ◌∷◌, ◌++◌,
  ltb, ◌==◌, if◌then◌else◌, length, last_or,
}
use shm_next.SharedList.{Nodes, SharedList, State, set_prev, set_next, reset_sentinel}
use shm_next.SharedList.Calls.{meet}

pub record Two (A W : Type 0) : Type 0 where
  pub nodes : Nodes A
  pub this : SharedList W
  pub other : SharedList W

-- The call returned, or it threw `std::runtime_error` and changed nothing.
pub data Spliced (A W : Type 0) : Type 0 where
  spliced : Two A W → Spliced A W
  incompatible : Spliced A W

module _ {A : Type 0} where
  unfoldable pub count_range : (fuel first last : ℕ) → Nodes A → Option ℕ
  count_range zero first last n = none
  count_range (suc fuel) first last n =
      let rest = count_range fuel (n.next first) last n in
      if first == last then some 0 else elim rest [ none ↦ none | some count ↦ some (count +w 1) ]

  unfoldable pub is_node_in_range : (fuel target first last : ℕ) → Nodes A → Option Bool
  is_node_in_range zero target first last n = none
  is_node_in_range (suc fuel) target first last n =
      let rest = is_node_in_range fuel target (n.next first) last n in
      if first == last then some false else if first == target then some true else rest

  -- the links of `transfer_range_before`
  unfoldable pub move_range : (position first last_exclusive : ℕ) → Nodes A → Nodes A
  move_range position first last_exclusive n =
      let before_first = n.prev first in
      let last = n.prev last_exclusive in
      let n₁ = set_prev last_exclusive before_first (set_next before_first last_exclusive n) in
      let before_position = n₁.prev position in
      set_prev position last (
        set_next last position (set_prev first before_position (set_next before_position first n₁)))

  -- the nodes from `current` to the sentinel
  unfoldable pub collect : (fuel sentinel current : ℕ) → Nodes A → Option (List ℕ)
  collect zero sentinel current n = none
  collect (suc fuel) sentinel current n =
      let rest = collect fuel sentinel (n.next current) n in
      if current == sentinel
      then some []
      else elim rest [ none ↦ none | some xs ↦ some (current ∷ xs) ]

  unfoldable pub relink_pairs : (previous : ℕ) → List ℕ → Nodes A → Nodes A
  relink_pairs previous [] n = n
  relink_pairs previous (x ∷ xs) n = relink_pairs x xs (set_prev x previous (set_next previous x n))

  unfoldable pub relink_nodes_in_order : (sentinel : ℕ) → List ℕ → Nodes A → Nodes A
  relink_nodes_in_order sentinel [] n = reset_sentinel sentinel n
  relink_nodes_in_order sentinel (x ∷ xs) n = relink_pairs x xs (
      set_next (last_or x xs) sentinel
        (set_prev x sentinel (set_prev sentinel (last_or x xs) (set_next sentinel x n))))

  -- a sentinel before the nodes from `first` to `last`
  abbrev pub enclose : (sentinel first last : ℕ) → Nodes A → Nodes A
  enclose s first last n = set_next last s (set_prev first s (set_prev s last (set_next s first n)))

  abbrev pub by_value : (A → A → Bool) → Nodes A → ℕ → ℕ → Bool
  by_value comp n lhs rhs = meet comp (n.value lhs) (n.value rhs)

module _ {A W : Type 0} where
  -- `require_compatible_allocator`
  abbrev pub require_compatible_allocator : Two A W → Spliced A W → Spliced A W
  require_compatible_allocator t go =
      if t.this.allocator == t.other.allocator then go else incompatible

  -- `transfer_range_before` from another list
  unfoldable pub transfer_range_before :
      (position first last_exclusive moved_count : ℕ) → Two A W → Two A W
  transfer_range_before position first last_exclusive moved_count t = record {
    nodes = move_range position first last_exclusive t.nodes;
    this = record t.this { size = t.this.size +w moved_count };
    other = record t.other { size = t.other.size -w moved_count };
  }

  -- `splice` of all of another list
  unfoldable pub splice : (pos : ℕ) → Two A W → Spliced A W
  splice pos t =
      if t.other.size == 0
      then spliced t
      else require_compatible_allocator t (
          spliced (
            transfer_range_before pos (t.nodes.next t.other.sentinel) t.other.sentinel t.other.size
              t))

  -- `splice` of one node of another list
  unfoldable pub splice_one : (pos it : ℕ) → Two A W → Spliced A W
  splice_one pos it t =
      if it == t.other.sentinel
      then spliced t
      else require_compatible_allocator t
          (spliced (transfer_range_before pos it (t.nodes.next it) 1 t))

  -- `splice` of one node of the list itself
  unfoldable pub splice_own : (pos it : ℕ) → State A W → State A W
  splice_own pos it s =
      if (it == s.list.sentinel) || ((pos == it) || (pos == s.nodes.next it))
      then s
      else record s { nodes = move_range pos it (s.nodes.next it) s.nodes }

  -- `splice` of a range of another list
  unfoldable pub splice_range : (pos first last : ℕ) → Two A W → Option (Spliced A W)
  splice_range pos first last t =
      if first == last
      then some (spliced t)
      else if t.this.allocator == t.other.allocator
      then elim (count_range (t.other.size + 1) first last t.nodes) [
        | none ↦ none
        | some count ↦ some (spliced (transfer_range_before pos first last count t))
      ]
      else some incompatible

  -- `splice` of a range of the list itself
  unfoldable pub splice_own_range : (pos first last : ℕ) → State A W → Option (State A W)
  splice_own_range pos first last s =
      if first == last
      then some s
      else if (pos == first) || (pos == last)
      then some s
      else elim (is_node_in_range (s.list.size + 1) pos first last s.nodes) [
        | none ↦ none
        | some true ↦ some s
        | some false ↦ some (record s { nodes = move_range pos first last s.nodes })
      ]

  unfoldable pub adopt_nodes_from : Two A W → Two A W
  adopt_nodes_from t =
      let s = t.this.sentinel in
      let o = t.other.sentinel in
      let n = reset_sentinel s t.nodes in
      let first = n.next o in
      let last = n.prev o in
      let this = record t.this { size = t.other.size } in
      if t.other.size == 0 then record { nodes = n; this = this; other = t.other } else record {
        nodes =
            reset_sentinel o
              (set_next last s (set_prev first s (set_prev s last (set_next s first n))));
        this = this;
        other = record t.other { size = 0 };
      }

  unfoldable pub swap : Two A W → Two A W
  swap t =
      let n = t.nodes in
      let s = t.this.sentinel in
      let o = t.other.sentinel in
      let n₁ =
        if t.other.size == 0 then reset_sentinel s n else enclose s (n.next o) (n.prev o) n in
      let n₂ =
        if t.this.size == 0 then reset_sentinel o n₁ else enclose o (n.next s) (n.prev s) n₁ in
      record {
        nodes = n₂;
        this = record t.other { sentinel = s };
        other = record t.this { sentinel = o };
      }

module _ {A W : Type 0} (stable_sort : (ℕ → ℕ → Bool) → List ℕ → List ℕ) where
  unfoldable pub sort : (A → A → Bool) → State A W → Option (State A W)
  sort comp s =
      if ltb s.list.size 2
      then some s
      else elim (collect (s.list.size + 1) s.list.sentinel (s.nodes.next s.list.sentinel) s.nodes) [
        | none ↦ none
        | some xs ↦ some (record s {
          nodes =
              relink_nodes_in_order s.list.sentinel (stable_sort (by_value comp s.nodes) xs)
                s.nodes;
        })
      ]

  -- the last part of `merge`
  unfoldable pub merge_nodes : (A → A → Bool) → List ℕ → Two A W → Two A W
  merge_nodes comp xs t =
      let nodes = stable_sort (by_value comp t.nodes) xs in
      record {
        nodes =
            reset_sentinel t.other.sentinel (relink_nodes_in_order t.this.sentinel nodes t.nodes);
        this = record t.this { size = length nodes };
        other = record t.other { size = 0 };
      }

  unfoldable pub merge : (A → A → Bool) → Two A W → Option (Spliced A W)
  merge comp t =
      let mine = collect (t.this.size + 1) t.this.sentinel (t.nodes.next t.this.sentinel) t.nodes in
      let theirs =
        collect (t.other.size + 1) t.other.sentinel (t.nodes.next t.other.sentinel) t.nodes in
      if t.other.size == 0
      then some (spliced t)
      else if t.this.allocator == t.other.allocator
      then elim mine [
        | none ↦ none
        | some xs ↦ elim theirs [
          | none ↦ none
          | some ys ↦ some (spliced (merge_nodes comp (xs ++ ys) t))
        ]
      ]
      else some incompatible
