-- ===== src/BufferManager/Tests.antt =====
-- A manager that has allocated twice.
use ic7610iq.BufferManager.{BufferManager, new_manager, allocate_buffers}
use ic7610iq.BufferManager.Cleared.{IsValid, new_manager-IsValid, allocate-IsValid}

abbrev twice : BufferManager
twice = allocate_buffers (allocate_buffers new_manager)

twice-IsValid : IsValid twice
twice-IsValid =
    allocate-IsValid (allocate_buffers new_manager)
      (allocate-IsValid new_manager new_manager-IsValid)
