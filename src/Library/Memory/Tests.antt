-- ===== src/Library/Memory/Tests.antt =====
-- Runs of the routines on memory, and their theorems at concrete areas.
use xyris.Base.{◌≡◌, ◌%◌, ◌^◌, refl, if◌then◌else◌}
use xyris.Library.Memory.{Bytes, copy_up, copy_down, memset, memcpy, memmove}
use xyris.Library.Memory.Copy.{in_area, moved, memmove_lem, memset_lem}

-- Every byte holds its address.
abbrev ramp : Bytes
ramp p = p

overlapping : (memmove ramp 102 100 4 104 ≡ 102) × (memcpy ramp 102 100 4 104 ≡ 100)
unfolding memmove memcpy copy_up copy_down
overlapping = (refl, refl)

memmove_lem_example : memmove ramp 102 100 4 104 ≡ moved ramp 102 100 4 104
memmove_lem_example = memmove_lem ramp 102 100 4 104

memset_lem_example : memset ramp 50 300 4 53 ≡ (if in_area 50 4 53 then 300 % 2 ^ 8 else ramp 53)
memset_lem_example = memset_lem ramp 50 300 4 53
