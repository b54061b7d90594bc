-- ===== src/Arch/Segments/Tests.antt =====
-- The descriptors of the table as bytes, and the layout theorem at one of them.
use xyris.Base.{◌≡◌, refl}
use xyris.Arch.Segments.{
  kernel_code, kernel_data, user_code, user_data, null_segment, segment, packed, access_byte,
  flags_byte,
}

table :
    (packed null_segment ≡ 0)
    × (packed kernel_code ≡ 0x00cf9a000000ffff)
    × (packed kernel_data ≡ 0x00cf92000000ffff)
    × (packed user_code ≡ 0x00cffa000000ffff)
    × (packed user_data ≡ 0x00cff2000000ffff)
unfolding packed access_byte flags_byte segment
table = (refl, refl, refl, refl, refl)
