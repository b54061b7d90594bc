-- ===== src/Devices/Serial.antt =====
-- Kernel/Devices/Serial/rs232.cpp: the characters that arrive and those that are sent. The character
-- that the port holds is an argument of the callback, and what is written to the data register is a
-- list, the latest last; the polling of the status register and the lock are left out.
pub mod Receive
mod Tests
use xyris.Base.{ℕ, zero, suc, List, [], ◌∷◌, ◌++◌, ◌==◌, if◌then◌else◌, length}
use xyris.Library.RingBuffer.{RingBuffer, enqueue, dequeue_value, is_empty}

-- The size of `ring`.
abbrev pub ring_size : ℕ
ring_size = 1024

-- `ring`, and what was written to the port.
pub record Port : Type 0 where
  pub ring : RingBuffer ℕ
  pub sent : List ℕ

-- `write` returns the number of bytes.
unfoldable pub write : Port → List ℕ → ℕ × Port
write p buf = (length buf, record p { sent = p.sent ++ buf })

-- A carriage return becomes a newline.
abbrev pub translate : ℕ → ℕ
translate c = if c == 13 then 10 else c

-- `callback`: the character is sent back and stored.
unfoldable pub callback : Port → ℕ → Port
unfolding write
callback p c =
    let echoed = (write p (translate c ∷ [])).1 in
    record echoed { ring = (enqueue ring_size echoed.ring (translate c)).1 }

-- The loop of `read`, `count` rounds: the bytes, and the port after them.
unfoldable pub read : ℕ → Port → List ℕ × Port
read zero p = ([], p)
read (suc count) p =
    let next = dequeue_value ring_size 0 p.ring in
    let rest = read count (record p { ring = next.1 }) in
    if is_empty p.ring then ([], p) else (next.0 ∷ rest.0, rest.1)
