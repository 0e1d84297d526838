-- ===== src/SharedList/Calls.antt =====
-- shared_memory_list.h: the calls that insert and erase several elements, and `reverse`.
--
-- A loop that uses up its fuel gives `none`, as `Unfinished`; an exception of `create` gives `none` for
-- the place.
use shm_next.Base.{
  ℕ, zero, suc, ◌+◌, Bool, false, Option, none, some, List, [], ◌∷◌, ltb, ◌==◌, if◌then◌else◌, true,
  false,
}
use shm_next.NodePool
use shm_next.NodePool.{NodeAllocator}
use shm_next.SharedList.{Nodes, State, set_prev, set_next, emplace, erase, clear}

module _ {A W : Type 0} where
  abbrev pub is_empty : State A W → Bool
  is_empty s = s.list.size == 0

  abbrev pub begin : State A W → ℕ
  begin s = s.nodes.next s.list.sentinel

  abbrev pub end : State A W → ℕ
  end s = s.list.sentinel

  unfoldable pub front : State A W → Option A
  front s = s.nodes.value (begin s)

  unfoldable pub back : State A W → Option A
  back s = s.nodes.value (s.nodes.prev (end s))

module _ {A : Type 0} where
  -- whether the value of a node meets the predicate; a node of a list has a value
  abbrev pub meets : (A → Bool) → Option A → Bool
  meets p none = false
  meets p (some x) = p x

  abbrev pub meet : (A → A → Bool) → Option A → Option A → Bool
  meet p none o = false
  meet p (some x) o = meets (p x) o

module _ {A W : Type 0} (al : NodeAllocator W) (build : A → ℕ → W → Bool × W) where
  unfoldable pub emplace_each : (pos : ℕ) → List A → Option ℕ × State A W → Option ℕ × State A W
  emplace_each pos [] r = r
  emplace_each pos (x ∷ xs) (none, s) = (none, s)
  emplace_each pos (x ∷ xs) (some result, s) =
      let (made, s₁) = emplace al build pos x s in
      elim made [ none ↦ (none, s₁) | some _ ↦ emplace_each pos xs (some result, s₁) ]

  -- `insert` of a range: the place of the first of its elements, or `pos`
  unfoldable pub insert_range : (pos : ℕ) → List A → State A W → Option ℕ × State A W
  insert_range pos [] s = (some pos, s)
  insert_range pos (x ∷ xs) s = emplace_each pos xs (emplace al build pos x s)

  abbrev pub repeat : ℕ → A → List A
  repeat zero x = []
  repeat (suc n) x = x ∷ repeat n x

  -- `insert` of `count` copies: the others go in front of what follows the first
  unfoldable pub insert_count : (pos count : ℕ) → A → State A W → Option ℕ × State A W
  insert_count pos zero x s = (some pos, s)
  insert_count pos (suc count) x s =
      let (made, s₁) = emplace al build pos x s in
      elim made [
        | none ↦ (none, s₁)
        | some result ↦ emplace_each (s₁.nodes.next result) (repeat count x) (some result, s₁)
      ]

  unfoldable pub push_front : A → State A W → Option ℕ × State A W
  push_front x s = emplace al build (begin s) x s

  unfoldable pub push_back : A → State A W → Option ℕ × State A W
  push_back x s = emplace al build (end s) x s

  unfoldable pub pop_front : State A W → State A W
  pop_front s = (erase al build (begin s) s).1

  unfoldable pub pop_back : State A W → State A W
  pop_back s = (erase al build (s.nodes.prev (end s)) s).1

  -- `erase` of a range
  unfoldable pub erase_range : (fuel current finish : ℕ) → State A W → Option (State A W)
  erase_range zero current finish s = none
  erase_range (suc fuel) current finish s =
      let (next, s₁) = erase al build current s in
      let rest = erase_range fuel next finish s₁ in if current == finish then some s else rest

  unfoldable pub shrink_loop : (fuel count : ℕ) → State A W → Option (State A W)
  shrink_loop zero count s = none
  shrink_loop (suc fuel) count s =
      let rest = shrink_loop fuel count (pop_back s) in
      if ltb count s.list.size then rest else some s

  unfoldable pub grow_loop : (fuel count : ℕ) → A → State A W → Option (Option ℕ × State A W)
  grow_loop zero count x s = none
  grow_loop (suc fuel) count x s =
      let (made, s₁) = push_back x s in
      let rest = grow_loop fuel count x s₁ in
      if ltb s.list.size count
      then elim made [ none ↦ some (none, s₁) | some _ ↦ rest ]
      else some (some (end s), s)

  -- `resize_fill`, and `resize_default` where `x` is the default value
  unfoldable pub resize_fill : (count : ℕ) → A → State A W → Option (Option ℕ × State A W)
  resize_fill count x s = elim (shrink_loop (s.list.size + 1) count s) [
    | none ↦ none
    | some s₁ ↦ grow_loop (count + 1) count x s₁
  ]

  unfoldable pub assign_count : (count : ℕ) → A → State A W → Option (Option ℕ × State A W)
  assign_count count x s = elim (clear al build s) [
    | none ↦ none
    | some s₁ ↦ some (insert_count (begin s₁) count x s₁)
  ]

  unfoldable pub assign_range : List A → State A W → Option (Option ℕ × State A W)
  assign_range xs s = elim (clear al build s) [
    | none ↦ none
    | some s₁ ↦ some (insert_range (begin s₁) xs s₁)
  ]

  unfoldable pub remove_loop : (fuel current : ℕ) → (A → Bool) → State A W → Option (State A W)
  remove_loop zero current p s = none
  remove_loop (suc fuel) current p s =
      let (next, s₁) = erase al build current s in
      let gone = remove_loop fuel next p s₁ in
      let kept = remove_loop fuel (s.nodes.next current) p s in
      if current == end s then some s else if meets p (s.nodes.value current) then gone else kept

  unfoldable pub remove_if : (A → Bool) → State A W → Option (State A W)
  remove_if p s = remove_loop (s.list.size + 1) (begin s) p s

  unfoldable pub unique_loop :
      (fuel current next : ℕ) → (A → A → Bool) → State A W → Option (State A W)
  unique_loop zero current next p s = none
  unique_loop (suc fuel) current next p s =
      let (behind, s₁) = erase al build next s in
      let gone = unique_loop fuel current behind p s₁ in
      let kept = unique_loop fuel next (s.nodes.next next) p s in
      if next == end s
      then some s
      else if meet p (s.nodes.value current) (s.nodes.value next)
      then gone
      else kept

  unfoldable pub unique : (A → A → Bool) → State A W → Option (State A W)
  unique p s =
      if ltb s.list.size 2
      then some s
      else unique_loop s.list.size (begin s) (s.nodes.next (begin s)) p s

  unfoldable pub shrink_to_fit : State A W → Option (State A W)
  shrink_to_fit s = elim (NodePool.shrink_to_fit al s.list.node_pool) [
    | none ↦ none
    | some pool ↦ some (record s { list = record s.list { node_pool = pool } })
  ]

  -- the destructor
  unfoldable pub destroy_list : State A W → Option (State A W)
  destroy_list s = elim (clear al build s) [ none ↦ none | some s₁ ↦ shrink_to_fit s₁ ]

  -- The constructor from a range, on a list that has no nodes yet: whether it returned, not threw.
  unfoldable pub construct_range : List A → State A W → Option (Bool × State A W)
  construct_range xs s =
      let (place, s₁) = insert_range (begin s) xs s in
      elim place [
        | some _ ↦ some (true, s₁)
        | none ↦ elim (destroy_list s₁) [ none ↦ none | some s₂ ↦ some (false, s₂) ]
      ]

-- `std::swap(current->next, current->prev)`
abbrev pub swap_links : {A : Type 0} → ℕ → Nodes A → Nodes A
swap_links current n = set_prev current (n.next current) (set_next current (n.prev current) n)

unfoldable pub reverse_loop :
    {A : Type 0} → (fuel sentinel current : ℕ) → Nodes A → Option (Nodes A)
reverse_loop zero sentinel current n = none
reverse_loop (suc fuel) sentinel current n =
    let rest = reverse_loop fuel sentinel (n.next current) (swap_links current n) in
    if n.next current == sentinel then some (swap_links current n) else rest

unfoldable pub reverse : {A W : Type 0} → State A W → Option (State A W)
reverse s =
    if ltb s.list.size 2
    then some s
    else elim (reverse_loop (s.list.size + 1) s.list.sentinel s.list.sentinel s.nodes) [
      | none ↦ none
      | some n ↦ some (record s { nodes = n })
    ]
