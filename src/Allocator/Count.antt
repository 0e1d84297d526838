-- ===== src/Allocator/Count.antt =====
-- shared_memory_block_allocator.h: the counters, one function for each `++total_...`, which wraps
-- around at 2 ^ 64.
use shm_next.Base.{◌+w◌}
use shm_next.Allocator.{Counters, Allocator}

abbrev pub none : Counters
none = record {
  total_allocate_calls = 0;
  total_deallocate_calls = 0;
  total_allocate_many_calls = 0;
  total_deallocate_many_calls = 0;
  total_failed_allocations = 0;
  total_split_count = 0;
  total_merge_count = 0;
  total_try_expand_calls = 0;
  total_try_expand_successes = 0;
  total_try_expand_failures = 0;
}

abbrev pub allocate_call : Allocator → Allocator
allocate_call a = record a {
  counters = record (a.counters) { total_allocate_calls = a.counters.total_allocate_calls +w 1 };
}

abbrev pub failed : Allocator → Allocator
failed a = record a {
  counters = record (a.counters) {
    total_failed_allocations = a.counters.total_failed_allocations +w 1;
  };
}

abbrev pub deallocate_call : Allocator → Allocator
deallocate_call a = record a {
  counters = record (a.counters) {
    total_deallocate_calls = a.counters.total_deallocate_calls +w 1;
  };
}

abbrev pub allocate_many_call : Allocator → Allocator
allocate_many_call a = record a {
  counters = record (a.counters) {
    total_allocate_many_calls = a.counters.total_allocate_many_calls +w 1;
  };
}

abbrev pub deallocate_many_call : Allocator → Allocator
deallocate_many_call a = record a {
  counters = record (a.counters) {
    total_deallocate_many_calls = a.counters.total_deallocate_many_calls +w 1;
  };
}

abbrev pub merge : Allocator → Allocator
merge a = record a {
  counters = record (a.counters) { total_merge_count = a.counters.total_merge_count +w 1 };
}

abbrev pub expand_call : Allocator → Allocator
expand_call a = record a {
  counters = record (a.counters) {
    total_try_expand_calls = a.counters.total_try_expand_calls +w 1;
  };
}

abbrev pub expand_success : Allocator → Allocator
expand_success a = record a {
  counters = record (a.counters) {
    total_try_expand_successes = a.counters.total_try_expand_successes +w 1;
  };
}

abbrev pub expand_failure : Allocator → Allocator
expand_failure a = record a {
  counters = record (a.counters) {
    total_try_expand_failures = a.counters.total_try_expand_failures +w 1;
  };
}
