-- ===== src/Memory/Section/Tests.antt =====
-- Runs of the section's tests.
use xyris.Base.{◌≡◌, refl, true, false}
use xyris.Memory.Section.{section, contains}

inside_and_before :
    (contains (section 8192 4096) 9000 ≡ false) × (contains (section 8192 4096) 100 ≡ true)
unfolding contains
inside_and_before = (refl, refl)
