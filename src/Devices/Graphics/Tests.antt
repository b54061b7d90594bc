-- ===== src/Devices/Graphics/Tests.antt =====
-- Instances of the theorems on the back buffer.
use xyris.Base.{◌≡◌, refl, inr, arith, true, some}
use xyris.Devices.Graphics.{Framebuffer, Screen, MemoryModel, putrect, copy_bytes, buffer_size}
use xyris.Devices.Graphics.Pixel.{IsLaidOut}
use xyris.Devices.Graphics.Font.{draw, draw_over}
use xyris.Devices.Graphics.Font.Cell.{draw-Inside}
use xyris.Devices.Graphics.Rectangle.{Inside, putrect-Inside}

-- 640 pixels on 480 lines, four bytes each.
abbrev vga : Framebuffer
vga = record {
  addr = 0xe0000000;
  width = 640;
  height = 480;
  depth = 32;
  pitch = 2560;
  red_mask_size = 8;
  red_mask_shift = 16;
  green_mask_size = 8;
  green_mask_shift = 8;
  blue_mask_size = 8;
  blue_mask_shift = 0;
  memory_model = MemoryModel.rgb_fbmm;
}

abbrev black : Screen
black = record { info = vga; initialized = true; backbuffer = λ q. 0; memory = λ q. 0 }

vga-IsLaidOut : IsLaidOut vga
vga-IsLaidOut = record { lines = omega arith; fits = omega arith; bytes = inr refl }

putrect-Inside_example :
    (t : Screen) × (putrect 21 11 black 600 400 20 10 0xff00ff
      ≡ some (record t { memory = copy_bytes t.memory t.backbuffer (buffer_size t.info) }))
    × Inside black t
putrect-Inside_example =
    putrect-Inside 21 11 black 600 400 20 10 0xff00ff refl vga-IsLaidOut (omega arith) (omega arith)
      (omega arith) (omega arith) (omega arith) (omega arith)

draw-Inside_example :
    Inside black (draw black 65 78 58 7) × Inside black (draw_over black 65 78 58 7 0)
draw-Inside_example =
    draw-Inside black 65 78 58 7 0 refl vga-IsLaidOut (omega arith) (omega arith) (omega arith)
      (omega arith)
