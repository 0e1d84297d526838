-- ===== src/Tests/Managers.antt =====
-- The theorems on the manager, applied to a segment of 4096 bytes and to metadata that is one number.
use shm_next.Base.{
  ℕ, zero, suc, ◌+◌, ◌%◌, ◌≤◌, ◌<◌, ◌≡◌, refl, true, false, List, [], ◌∷◌, arith, word, ◌==◌, ◌⊎◌,
  inl, inr,
}
use shm_next.Errors.{InterprocessErrc, bad_alloc, initialization_in_progress}
use shm_next.Allocator.Invariant.{IsValid}
use shm_next.Registry.{Registry, ready}
use shm_next.Sync.Mutex.{Pthread}
use shm_next.Manager.{Metadata, Reading, look, give, with_read_only_snapshot}
use shm_next.Manager.Events.{Event, begins, changes, ends, happen_all, events_before}
use shm_next.Manager.Snapshots.{Consistent, with_read_only_snapshot-Consistent}
use shm_next.Manager.Waiting.{with_read_only_snapshot-waits}
use shm_next.Manager.Lifecycle.{Segment, returned, refused, create, attach, check_sanity_unlocked}
use shm_next.Manager.Start.{create-attach}
use shm_next.Manager.Processes.{World, Act, claims, proceeds, attaches, idle, steps, IsSound}
use shm_next.Manager.Soundness.{steps-IsSound}
use shm_next.Tests.States.{busy}

-- a function that reads the metadata twice
abbrev twice : Reading ℕ (ℕ × ℕ)
twice = look λ x. look λ y. give (x, y)

-- after the first load a writer puts 7
abbrev writes : ℕ → List (Event ℕ)
writes zero = begins ∷ changes 7 ∷ ends ∷ []
writes (suc t) = []

abbrev seen : ℕ → Metadata ℕ
seen zero = record { generation = 4; content = 5 }
seen (suc t) = happen_all (writes t) (seen t)

three_events : (t : ℕ) → events_before writes (suc t) ≡ 3
three_events zero = refl
three_events (suc t) = omega (arith, three_events t)

few : (t : ℕ) → events_before writes t < word
few zero = omega arith
few (suc t) = omega (arith, three_events t)

with_read_only_snapshot-Consistent_example :
    Consistent twice seen (with_read_only_snapshot twice seen)
with_read_only_snapshot-Consistent_example =
    with_read_only_snapshot-Consistent writes seen (omega arith, λ t. refl) few twice

-- a writer is active at the first load
abbrev finishing : ℕ → Metadata ℕ
finishing zero = record { generation = 5; content = 5 }
finishing (suc t) = record { generation = 6; content = 7 }

finishing-odd : (u : ℕ) → u < 1 → ((finishing u).generation % 2 == 0) ≡ false
finishing-odd zero lt = refl
finishing-odd (suc u) lt = absurd (omega (arith, lt))

finishing-still : (u : ℕ) → 1 ≤ u → finishing u ≡ finishing 1
finishing-still zero le = absurd (omega (arith, le))
finishing-still (suc u) le = refl

with_read_only_snapshot-waits_example : with_read_only_snapshot twice finishing ≡ inr (7, 7)
with_read_only_snapshot-waits_example =
    with_read_only_snapshot-waits twice finishing 1 (omega arith) finishing-odd refl finishing-still

abbrev count_and_throw : ℕ → (InterprocessErrc ⊎ ℕ) × ℕ
count_and_throw c = (inl bad_alloc, c + 1)

-- the owner of the mutex died, while it wrote
abbrev left_locked : Pthread ℕ
left_locked = record {
  robust = true;
  owner_dead = 130;
  not_recoverable = 131;
  busy = 16;
  mutex_lock = λ w. (130, w + 1);
  mutex_trylock = λ w. (130, w + 1);
  mutex_unlock = λ w. (0, w + 1);
  mutex_consistent = λ w. (0, w + 1);
}

abbrev no_names : Registry
no_names = record {
  buckets = λ _. 0;
  ready_count = 0;
  total_count = 0;
  reserved_count = 0;
  ptr = λ _. 0;
  name = λ _. 0;
  next = λ _. 0;
  name_length = λ _. 0;
  name_hash = λ _. 0;
  state = λ _. ready;
  byte = λ _. 0;
}

abbrev zeros : Segment
zeros = record {
  initialization_state = 0;
  magic = 0;
  layout_version = 0;
  header_size = 0;
  metadata_generation = 0;
  total_size = 0;
  block_allocator = busy;
  named_objects = no_names;
}

create-attach_example :
    (s' : Segment) × (first : ℕ) × (create 720 3 true 0x10000 4096 zeros ≡ (returned, s'))
    × (attach 720 3 s' ≡ returned)
    × (check_sanity_unlocked 720 3 s' ≡ true)
    × IsValid s'.block_allocator (first ∷ []) (first ∷ [])
    × (s'.total_size ≡ 4096)
    × (create 720 3 true 0x10000 4096 s' ≡ (refused initialization_in_progress, s'))
create-attach_example =
    create-attach 720 3 0x10000 4096 zeros (omega arith) refl refl (omega arith) (omega arith)
      (omega arith) refl

abbrev all_idle : World
all_idle = record { segment = zeros; phase = λ _. idle }

all_idle-IsSound : IsSound 720 3 0x10000 4096 all_idle
all_idle-IsSound = record {
  alone = λ p q h. absurd (ground (arith, h));
  fits = λ p. record {
    busy = λ h. absurd (ground (arith, h));
    working = λ h. absurd (ground (arith, h));
    version = λ h. absurd (ground (arith, h));
    header = λ h. absurd (ground (arith, h));
    full = λ h. absurd (ground (arith, h));
    marked = λ h. absurd (ground (arith, h));
    ready = λ h. absurd (ground (arith, h));
  };
  complete = λ h. absurd (ground (arith, h));
}

-- two processes create, and three others attach in between
abbrev race : List Act
race =
    claims 1
    ∷ claims 2
    ∷ attaches 3
    ∷ proceeds true 1
    ∷ proceeds true 1
    ∷ proceeds true 2
    ∷ proceeds true 1
    ∷ attaches 4
    ∷ proceeds true 1
    ∷ attaches 5
    ∷ []

steps-IsSound_example : IsSound 720 3 0x10000 4096 (steps 720 3 0x10000 4096 race all_idle)
steps-IsSound_example =
    steps-IsSound 720 3 0x10000 4096 (omega arith) race all_idle all_idle-IsSound
