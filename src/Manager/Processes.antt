-- ===== src/Manager/Processes.antt =====
-- shared_memory_manager.h: several processes create and attach at once. The exchange of the state word, each
-- group of writes of the constructor, `mark_corrupted` and `attach` are steps, and between two steps of one
-- process any other process may run.
use shm_next.Base.{ℕ, ◌≡◌, Bool, true, false, List, [], ◌∷◌, ◌==◌, if◌then◌else◌, update}
use shm_next.Allocator.{Allocator, Run, ok, throw, endless}
use shm_next.Allocator.Calls
use shm_next.Manager.Lifecycle.{
  Segment, Outcome, returned, claim, attach, begun, filled, signed, published, mark_corrupted,
  magic_number,
}

-- what a process has done: nothing; the exchange, then the parts of the constructor one by one; all of
-- `create`; a constructor that threw, before and after `mark_corrupted`; `attach`; or a call that was refused
pub data Phase : Type 0 where
  idle claimed has_begun has_filled has_signed created unwinding broken attached failed : Phase

pub data Act : Type 0 where
  claims attaches : ℕ → Act
  proceeds : (mutex_made : Bool) → ℕ → Act

pub record World : Type 0 where
  pub segment : Segment
  pub phase : ℕ → Phase

abbrev pub is_idle : Phase → Bool
is_idle idle = true
is_idle _ = false

-- the phases of a process that made the exchange
abbrev pub is_owner : Phase → Bool
is_owner idle = false
is_owner attached = false
is_owner failed = false
is_owner _ = true

-- the phases within `create`
abbrev pub is_working : Phase → Bool
is_working claimed = true
is_working has_begun = true
is_working has_filled = true
is_working has_signed = true
is_working unwinding = true
is_working _ = false

-- the phases from the first writes of the constructor on
abbrev pub is_headed : Phase → Bool
is_headed has_begun = true
is_headed has_filled = true
is_headed has_signed = true
is_headed _ = false

abbrev pub is_full : Phase → Bool
is_full has_filled = true
is_full has_signed = true
is_full _ = false

abbrev pub is_signed : Phase → Bool
is_signed has_signed = true
is_signed _ = false

-- the phases of a process that has the manager
abbrev pub has_manager : Phase → Bool
has_manager created = true
has_manager attached = true
has_manager _ = false

abbrev pub becomes : Phase → Outcome → Phase
becomes phase returned = phase
becomes phase _ = failed

abbrev pub moves : (p : ℕ) → Phase → Segment → World → World
moves p phase s w = record { segment = s; phase = update w.phase p phase }

module _ (manager_size current_layout_version base_addr total_size : ℕ) where
  -- the call of `initialize`; one that does not end leaves the process where it is
  abbrev pub fills : (p : ℕ) → Run (Unit {0}) → World → World
  fills p (ok _ a) w = moves p has_filled (filled total_size a w.segment) w
  fills p (throw e a) w = moves p unwinding (filled total_size a w.segment) w
  fills p endless w = w

  -- the next step of a process within `create`
  abbrev pub advance : (mutex_made : Bool) → (p : ℕ) → Phase → World → World
  advance mutex_made p claimed w =
      moves p has_begun (begun manager_size current_layout_version w.segment) w
  advance false p has_begun w = moves p unwinding w.segment w
  advance true p has_begun w =
      fills p (Calls.initialize base_addr manager_size total_size w.segment.block_allocator) w
  advance mutex_made p has_filled w = moves p has_signed (signed w.segment) w
  advance mutex_made p has_signed w = moves p created (published w.segment) w
  advance mutex_made p unwinding w = moves p broken (mark_corrupted w.segment) w
  advance mutex_made p _ w = w

  -- An act of a process that is not in the phase for it changes nothing.
  unfoldable pub step : Act → World → World
  step (claims p) w =
      let (outcome, s) = claim manager_size current_layout_version total_size w.segment in
      if is_idle (w.phase p) then moves p (becomes claimed outcome) s w else w
  step (proceeds mutex_made p) w = advance mutex_made p (w.phase p) w
  step (attaches p) w =
      if is_idle (w.phase p)
      then moves p (becomes attached (attach manager_size current_layout_version w.segment))
          w.segment w
      else w

  abbrev pub steps : List Act → World → World
  steps [] w = w
  steps (act ∷ acts) w = steps acts (step act w)

  -- The block allocator is what `initialize` returned with, and the size is that of the segment.
  abbrev pub Full : Segment → Type 0
  Full s =
      ((a : Allocator) × (Calls.initialize base_addr manager_size total_size a
          ≡ ok tt s.block_allocator))
      × (s.total_size ≡ total_size)

  -- what a phase of a process says of the segment
  pub record Fits (f : Phase) (s : Segment) : Type 0 where
    pub busy : is_owner f ≡ true → (s.initialization_state == 0) ≡ false
    pub working : is_working f ≡ true → (s.initialization_state == 1) ≡ true
    pub version : is_headed f ≡ true → s.layout_version ≡ current_layout_version
    pub header : is_headed f ≡ true → s.header_size ≡ manager_size
    pub full : is_full f ≡ true → Full s
    pub marked : is_signed f ≡ true → (s.magic == magic_number) ≡ true
    pub ready : has_manager f ≡ true → (s.initialization_state == 2) ≡ true

  -- Once initialized, the segment is complete.
  abbrev pub Complete : Segment → Type 0
  Complete s =
      (s.initialization_state == 2) ≡ true
      → (attach manager_size current_layout_version s ≡ returned) × Full s

  -- At most one process made the exchange, also of those whose constructor threw; and the segment is
  -- complete once it is initialized, as it is where a process has the manager.
  pub record IsSound (w : World) : Type 0 where
    pub alone : (p q : ℕ) → is_owner (w.phase p) ≡ true → is_owner (w.phase q) ≡ true → p ≡ q
    pub fits : (p : ℕ) → Fits (w.phase p) w.segment
    pub complete : Complete w.segment
