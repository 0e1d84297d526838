-- ===== src/Tests/States.antt =====
-- Valid states of the block allocator in a segment of 1024 bytes at 0x10000.
use shm_next.Base.{
  ℕ, ◌==◌, ◌≡◌, refl, ◌⊎◌, inl, inr, true, false, [], ◌∷◌, arith, has, if◌then◌else◌,
}
use shm_next.Allocator.{Allocator}
use shm_next.Allocator.Count
use shm_next.Allocator.Invariant.{IsValid}
use shm_next.Allocator.Pointers.{IsLive}
use shm_next.Allocator.Sessions.{Session, IsSafe}

-- one free block
abbrev pub start : Allocator
start = record {
  segment_base = 0x10000;
  segment_size = 1024;
  first_block = 0x10040;
  free_list_head = 0x10040;
  counters = Count.none;
  size = λ p. 960;
  is_free = λ p. true;
  next_free = λ p. 0;
  header_block = λ p. 0;
  requested_size = λ p. 0;
}

-- two blocks in use, with payloads of 100 and of 200 bytes
abbrev pub busy : Allocator
busy = record {
  segment_base = 0x10000;
  segment_size = 1024;
  first_block = 0x10040;
  free_list_head = 0;
  counters = Count.none;
  size = λ p. if p == 0x10040 then 160 else 800;
  is_free = λ p. false;
  next_free = λ p. 0;
  header_block = λ p. if p == 0x10060 then 0x10040 else 0x100E0;
  requested_size = λ p. if p == 0x10060 then 100 else 200;
}

pub start-IsValid : IsValid start (0x10040 ∷ []) (0x10040 ∷ [])
start-IsValid = record {
  blocks = record {
    base_pos = omega arith;
    first_ge = omega arith;
    spaced = refl;
    small = omega arith;
    chain = (refl, omega arith, refl, refl);
  };
  listed = record {
    links = (refl, omega arith, refl);
    sorted = (λ y i. ground arith, tt);
    within = λ q i. i;
  };
  exact = λ q i. i;
  first = refl;
}

pub busy-IsValid : IsValid busy (0x10040 ∷ 0x100E0 ∷ []) []
busy-IsValid = record {
  blocks = record {
    base_pos = omega arith;
    first_ge = omega arith;
    spaced = refl;
    small = omega arith;
    chain = (refl, omega arith, refl, (refl, omega arith, refl, refl));
  };
  listed = record { links = refl; sorted = tt; within = λ q i. ground arith };
  exact = λ q i. refl;
  first = refl;
}

pub left-IsLive : IsLive busy (0x10040 ∷ 0x100E0 ∷ []) 0x10040 0x10070
left-IsLive = record {
  present = refl;
  used = refl;
  block = refl;
  behind = omega arith;
  inside = omega arith;
  within = omega arith;
}

pub right-IsLive : IsLive busy (0x10040 ∷ 0x100E0 ∷ []) 0x100E0 0x10110
right-IsLive = record {
  present = refl;
  used = refl;
  block = refl;
  behind = omega arith;
  inside = omega arith;
  within = omega arith;
}

abbrev pub session : Session
session = record { allocator = busy; held = 0x10070 ∷ 0x10110 ∷ [] }

held-cases : (p : ℕ) → has p session.held ≡ true → (p ≡ 0x10070) ⊎ (p ≡ 0x10110)
held-cases p i = ground arith

pub session-IsSafe : IsSafe session (0x10040 ∷ 0x100E0 ∷ []) []
session-IsSafe = record {
  valid = busy-IsValid;
  live = λ p i. elim (held-cases p i) [ inl e ↦ rw e left-IsLive | inr e ↦ rw e right-IsLive ];
  apart = λ p q i j ne. elim (held-cases p i) [
    | inl e ↦ elim (held-cases q j) [ inl e' ↦ absurd (ground arith) | inr e' ↦ λ z. ground arith ]
    | inr e ↦ elim (held-cases q j) [ inl e' ↦ λ z. ground arith | inr e' ↦ absurd (ground arith) ]
  ];
  distinct = (refl, (refl, tt));
}
