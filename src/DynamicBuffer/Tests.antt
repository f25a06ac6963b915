-- ===== src/DynamicBuffer/Tests.antt =====
-- Runs of the buffer of lib/dynamic_buffer.c.
use ws_pipeline_dispatcher.Prelude.{true, false, refl, none, some, codes}
use ws_pipeline_dispatcher.DynamicBuffer.{DynamicBuffer, Heap, dynamic_buffer_append_mem}
use ws_pipeline_dispatcher.DynamicBuffer.Reserve.{IsBuffer, unallocated}
use ws_pipeline_dispatcher.DynamicBuffer.Append.{Appends, append_mem-Appends}

abbrev heap : Heap
heap = record { grants = λ n. true; junk = λ i. 7 }

abbrev zero_buffer : DynamicBuffer
zero_buffer = record { data_ = none; len = 0; cap = 0; failed = false }

zero-IsBuffer : IsBuffer zero_buffer
zero-IsBuffer = unallocated refl refl refl

append_mem-Appends_example :
    Appends heap zero_buffer
      (codes "abc")
      (dynamic_buffer_append_mem heap zero_buffer (some (codes "abc")))
append_mem-Appends_example = append_mem-Appends heap zero_buffer (codes "abc") zero-IsBuffer
