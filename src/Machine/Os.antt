-- ===== src/Machine/Os.antt =====
-- The functions of Windows and of the C runtime that vcmalloc.h calls. They are not part of the
-- repository, so they are the fields of a record that the model takes as a parameter.
use vcmalloc_bench.Base.{ℕ, Bool, List, Option}

pub record Os : Type 1 where
  pub State : Type 0
  -- GetSystemInfo: dwPageSize is 2 ^ page_shift
  pub page_shift : ℕ
  -- GetSystemInfo: dwAllocationGranularity
  pub granularity : ℕ
  -- malloc, realloc, HeapAlloc and HeapReAlloc of so many bytes: whether the result is not NULL
  pub heap_alloc : ℕ → State → Bool × State
  -- HeapFree and free, with what HeapFree returns
  pub heap_free : State → Bool × State
  -- AllocateUserPhysicalPages: the result, the frames that it writes to the array, in number the
  -- count that it writes back
  pub allocate_frames : ℕ → State → Bool × List ℕ × State
  -- FreeUserPhysicalPages: the result and the count that it writes back
  pub free_frames : List ℕ → State → Bool × ℕ × State
  -- MapUserPhysicalPages with an array, from a virtual address on
  pub map_frames : ℕ → List ℕ → State → Bool × State
  -- MapUserPhysicalPages with NULL: from a virtual address on, so many pages
  pub unmap_pages : ℕ → ℕ → State → Bool × State
  -- VirtualAlloc with MEM_RESERVE | MEM_PHYSICAL: an address (0 for NULL) and a size
  pub virtual_alloc : ℕ → ℕ → State → Option ℕ × State
  -- VirtualFree with MEM_RELEASE
  pub virtual_free : ℕ → State → Bool × State
  -- OpenProcessToken, LookupPrivilegeValue and AdjustTokenPrivileges: whether GetLastError
  -- reports success behind them
  pub lock_privilege : State → Bool × State
  -- the physical frame that a virtual page number stands for, as the hardware translates it
  pub frame_at : State → ℕ → Option ℕ
