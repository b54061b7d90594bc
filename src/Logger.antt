-- ===== src/Logger.antt =====
-- Kernel/Logger.cpp and Logger.hpp: the table of log writers and the level. A writer is its address,
-- 0 the null pointer; a call is answered by the writers that it calls, in order. The text of a message
-- is left out, and so is the lock of its buffer.
mod Tests
pub mod Writers
use xyris.Base.{
  ℕ, zero, suc, ◌+◌, Bool, true, false, ◌==◌, leb, ltb, if◌then◌else◌, List, [], ◌∷◌, set, take,
}

-- `enum LogLevel`
pub data LogLevel : Type 0 where
  l_trace l_debug l_verbose l_info l_warning l_error l_none : LogLevel

abbrev pub level_number : LogLevel → ℕ
level_number l_trace = 0
level_number l_debug = 1
level_number l_verbose = 2
level_number l_info = 3
level_number l_warning = 4
level_number l_error = 5
level_number l_none = 6

abbrev pub max_writer_count : ℕ
max_writer_count = 2

pub record Logger : Type 0 where
  pub writers_idx : ℕ
  pub log_level : LogLevel
  pub writers : List ℕ

abbrev pub set_level : Logger → LogLevel → Logger
set_level l level = record l { log_level = level }

-- The writers of a list that are not null.
abbrev pub called : List ℕ → List ℕ
called [] = []
called (w ∷ ws) = if w == 0 then called ws else w ∷ called ws

-- `LogHelperPrint`
unfoldable pub log_helper_print : Logger → List ℕ
log_helper_print l = called (take l.writers_idx l.writers)

-- `Trace`, `Verbose`, `Debug`, `Info`, `Warning` and `Error`, by the level of their messages.
unfoldable pub log : Logger → LogLevel → List ℕ
log l level = if leb (level_number l.log_level) (level_number level) then log_helper_print l else []

-- `addWriter`
unfoldable pub add_writer : Logger → ℕ → Logger × Bool
add_writer l writer =
    if ltb l.writers_idx max_writer_count
    then (
      record l { writers_idx = l.writers_idx + 1; writers = set l.writers l.writers_idx writer },
      true,
    )
    else (l, false)

-- The loop of `removeWriter` over the `n` writers that are left, and whether it found the writer.
abbrev pub remove_loop : ℕ → List ℕ → ℕ → List ℕ × Bool
remove_loop zero ws writer = (ws, false)
remove_loop (suc n) [] writer = ([], false)
remove_loop (suc n) (w ∷ ws) writer =
    let rest = remove_loop n ws writer in
    if w == writer then (0 ∷ ws, true) else (w ∷ rest.0, rest.1)

-- `removeWriter`
unfoldable pub remove_writer : Logger → ℕ → Logger × Bool
remove_writer l writer =
    let r = remove_loop l.writers_idx l.writers writer in (record l { writers = r.0 }, r.1)
