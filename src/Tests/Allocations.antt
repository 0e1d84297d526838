-- ===== src/Tests/Allocations.antt =====
-- The theorems on the block allocator, applied to the states of Tests/States.antt.
use shm_next.Base.{ℕ, ◌+◌, ◌-◌, ◌^◌, ◌≤◌, ◌≡◌, ◌⊎◌, refl, true, none, List, [], ◌∷◌, arith, word}
use shm_next.Errors.{invalid_pointer, double_free}
use shm_next.Allocator.{Allocator, ok, throw}
use shm_next.Allocator.Count
use shm_next.Allocator.Layout.{normalize_loop, make_layout}
use shm_next.Allocator.Layout.Align.{normalize_loop-endless}
use shm_next.Allocator.Layout.Bounds.{Fits, make_layout-Fits, make_layout-wraps}
use shm_next.Allocator.Walks.{check_sanity}
use shm_next.Allocator.Calls.{initialize, deallocate}
use shm_next.Allocator.Invariant.{IsValid}
use shm_next.Allocator.Pointers.{Released, deallocate-Released}
use shm_next.Allocator.DoubleFree.{deallocate-twice}
use shm_next.Allocator.Sessions.{Request, take, give, run}
use shm_next.Allocator.Sessions.Goes.{Goes, run-Goes}
use shm_next.Allocator.Start.{initialize-IsValid}
use shm_next.Allocator.Sanity.{check_sanity-true}
use shm_next.Allocator.Stats.{get_stats}
use shm_next.Allocator.Stats.Totals.{Reports, get_stats-Reports}
use shm_next.Tests.States.{busy, session, busy-IsValid, left-IsLive, session-IsSafe}

abbrev one : List ℕ
one = 0x10040 ∷ []

abbrev two : List ℕ
two = 0x10040 ∷ 0x100E0 ∷ []

abbrev requests : List Request
requests = take 64 16 ∷ give 0x10070 ∷ take 24 64 ∷ give 0x10110 ∷ []

run-Goes_example : Goes (run requests session)
run-Goes_example =
    run-Goes requests session two [] session-IsSafe
      (omega arith, omega arith, omega arith, (omega arith, omega arith, omega arith, tt))

deallocate-Released_example : Released busy two 0x10040 (deallocate 0x10070 busy)
deallocate-Released_example =
    deallocate-Released busy two [] 0x10040 0x10070 busy-IsValid left-IsLive

abbrev left_released : Released busy two 0x10040 (deallocate 0x10070 busy)
left_released = deallocate-Released busy two [] 0x10040 0x10070 busy-IsValid left-IsLive

deallocate-twice_example :
    (deallocate 0x10070 left_released.after
      ≡ throw double_free (Count.deallocate_call left_released.after))
    ⊎ (deallocate 0x10070 left_released.after
        ≡ throw invalid_pointer (Count.deallocate_call left_released.after))
deallocate-twice_example =
    deallocate-twice busy two [] 0x10040 0x10070 busy-IsValid left-IsLive left_released

initialize-IsValid_example :
    (a' : Allocator) × (first : ℕ) × (initialize 0x10000 64 1024 busy ≡ ok tt a')
    × IsValid a' (first ∷ []) (first ∷ [])
    × (0x10000 + 64 ≤ first)
    × (a'.is_free first ≡ true)
    × (first + a'.size first ≡ 0x10000 + 1024)
initialize-IsValid_example =
    initialize-IsValid 0x10000 64 1024 busy (omega arith) refl refl (omega arith) (omega arith)

check_sanity-true_example : check_sanity busy ≡ true
check_sanity-true_example = check_sanity-true busy two [] busy-IsValid

make_layout-Fits_example : Fits 0x10040 100 64 (make_layout 0x10040 100 64)
make_layout-Fits_example = make_layout-Fits 0x10040 100 64 (omega arith) (omega arith)

normalize_loop-endless_example : normalize_loop 1000 (2 ^ 63 + 1) 16 ≡ none
normalize_loop-endless_example = normalize_loop-endless 1000 (2 ^ 63 + 1) 16 59 refl (omega arith)

make_layout-wraps_example :
    ((make_layout 0x10040 (word - 20) 16).payload ≡ 0x10040 + 48)
    × ((make_layout 0x10040 (word - 20) 16).total_size ≤ 48)
make_layout-wraps_example =
    make_layout-wraps 0x10040 20 refl (omega arith) (omega arith) (omega arith)

get_stats-Reports_example : Reports busy two [] (get_stats busy)
get_stats-Reports_example = get_stats-Reports busy two [] busy-IsValid
