-- ===== src/Devices/Serial/Tests.antt =====
-- Instances of the theorems on the serial port.
use xyris.Base.{[], replicate}
use xyris.Library.RingBuffer.{init}
use xyris.Devices.Serial.{Port}

abbrev quiet : Port
quiet = record { ring = init (replicate 1024 0); sent = [] }
