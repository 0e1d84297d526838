-- ===== src/Errors.antt =====
-- interprocess/error.h: the error codes that the library throws.

pub data InterprocessErrc : Type 0 where
  success segment_too_small initialization_in_progress initialization_corrupted : InterprocessErrc
  unknown_initialization_state magic_mismatch unsupported_layout_version : InterprocessErrc
  layout_header_mismatch read_only_violation invalid_name allocation_size_overflow :
      InterprocessErrc
  bad_alloc invalid_pointer double_free named_object_type_mismatch : InterprocessErrc
  metadata_changed_during_read owner_dead : InterprocessErrc
