-- ===== src/Memory/Physical.antt =====
-- Kernel/Memory/Physical.hpp, the manager of physical page frames: one bit for each frame, set where
-- the frame is used. A method that changes the manager returns the new one; the log is left out.
pub mod Frames
pub mod Misses
pub mod Take
mod Tests
use xyris.Base.{
  ℕ, zero, suc, ◌+◌, ◌*◌, Bool, true, false, not, ◌&&◌, ◌==◌, if◌then◌else◌, List, [], ◌∷◌, Option,
  none, some, size_max, add_word,
}
use xyris.Library.Bitset.{Bitset, init, set_bit, clear, test, find_first_bit}
use xyris.Memory.Address.{arch_page_size, address_to_page_idx, page_idx_to_address}
use xyris.Memory.Section.{Section, pages, initialized, is_available}

-- `Manager::m_memory`
abbrev pub Manager : Type 0
Manager = Bitset

-- `MEM_BITMAP_SIZE`: one bit for each of the pages of the address space.
abbrev pub mem_bitmap_size : ℕ
mem_bitmap_size = 1048576

-- `Manager()`: all memory is reserved.
abbrev pub manager : Manager
manager = init mem_bitmap_size true

unfoldable pub set_free : Manager → ℕ → Manager
set_free m addr = clear m (address_to_page_idx addr)

unfoldable pub set_used : Manager → ℕ → Manager
set_used m addr = set_bit m (address_to_page_idx addr)

unfoldable pub is_free : Manager → ℕ → Bool
is_free m addr = not (test m (address_to_page_idx addr))

-- The rounds of `setFree(Section&)` from round `i` on, `n` of them.
unfoldable pub set_free_pages : ℕ → Manager → ℕ → ℕ → Manager
set_free_pages zero m base i = m
set_free_pages (suc n) m base i =
    set_free_pages n (set_free m (add_word base (i * arch_page_size))) base (i + 1)

abbrev pub set_free_section : Manager → Section → Manager
set_free_section m sect = set_free_pages (pages sect) m sect.base 0

-- The rounds of `setUsed(Section&)`: `setUsed` is given a page's index, and divides it once more.
unfoldable pub set_used_pages : ℕ → Manager → ℕ → ℕ → Manager
set_used_pages zero m base i = m
set_used_pages (suc n) m base i =
    set_used_pages n (set_used m (add_word (address_to_page_idx base) i)) base (i + 1)

abbrev pub set_used_section : Manager → Section → Manager
set_used_section m sect = set_used_pages (pages sect) m sect.base 0

abbrev pub bool_to_int : Bool → ℕ
bool_to_int true = 1
bool_to_int false = 0

-- The rounds of `isFree(Section&)`: the negation binds before the sum.
unfoldable pub is_free_pages : ℕ → Manager → ℕ → ℕ → Bool
is_free_pages zero m base i = true
is_free_pages (suc n) m base i =
    let rest = is_free_pages n m base (i + 1) in
    if not (add_word (bool_to_int (not (is_free m base))) (i * arch_page_size) == 0)
    then false
    else rest

abbrev pub is_free_section : Manager → Section → Bool
is_free_section m sect = is_free_pages (pages sect) m sect.base 0

-- The loop over the memory map.
unfoldable pub initialize : Manager → List Section → Manager
initialize m [] = m
initialize m (sect ∷ map) =
    initialize (if initialized sect && is_available sect.kind then set_free_section m sect else m)
      map

abbrev pub find_next_free_physical_address : Manager → ℕ
find_next_free_physical_address m = find_first_bit mem_bitmap_size m false

abbrev take_page : Manager → ℕ → Option (Manager × ℕ)
take_page m p_addr =
    if p_addr == size_max
    then none
    else some (set_used m (page_idx_to_address p_addr), page_idx_to_address p_addr)

-- The manager and the address of the page; none where the kernel panics.
unfoldable pub get_page : Manager → Option (Manager × ℕ)
get_page m = take_page m (find_next_free_physical_address m)

unfoldable pub free_page : Manager → ℕ → Manager
free_page m phys_addr = set_free m phys_addr
