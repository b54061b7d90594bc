-- ===== src/Memory/Address/Tests.antt =====
-- Runs of the address routines, and their theorems at concrete addresses.
use xyris.Base.{◌≡◌, refl}
use xyris.Memory.Address.{page_align, page_align_up}

aligned : (page_align 0x12345678 ≡ 0x12345000) × (page_align_up 0x12345678 ≡ 0x12346000)
unfolding page_align page_align_up
aligned = (refl, refl)
