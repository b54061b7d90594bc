-- ===== src/Devices/Serial/Receive.antt =====
-- What arrives at the serial port is what `read` returns.
use xyris.Base.{ℕ, ◌≡◌, List, [], ◌∷◌}
use xyris.Library.RingBuffer.{RingBuffer}
use xyris.Library.RingBuffer.Invariant.{IsValid}
use xyris.Library.RingBuffer.Refine.{contents}
use xyris.Devices.Serial.{Port, ring_size, callback}

-- The port's ring is valid and holds `q`.
pub record Holds (p : Port) (q : List ℕ) : Type 0 where
  pub valid : IsValid ring_size p.ring
  pub stored : contents ring_size 0 p.ring ≡ q

-- The characters arrive one after the other.
abbrev pub receive : Port → List ℕ → Port
receive p [] = p
receive p (c ∷ cs) = receive (callback p c) cs
