-- ===== src/Mouse/Tests.antt =====
-- Runs of the mouse.
use calculatoros.Prelude.{◌≡◌, refl, [], ◌∷◌, arith}
use calculatoros.Mouse.{Mouse, on_packet, mouse_handler, on_bytes}
use calculatoros.Mouse.Inside.{IsInside, on_bytes-IsInside}

abbrev resting : Mouse
resting = record {
  cycle = 0;
  byte0 = 0;
  byte1 = 0;
  byte2 = 0;
  left = 0;
  right = 0;
  x = 400;
  y = 300;
}

-- A byte that starts no packet, and a packet that moves to the left by 10 and down by 40.
packet_run : on_bytes 800 600 (0 ∷ 9 ∷ 246 ∷ 200 ∷ []) resting ≡ record {
  cycle = 0;
  byte0 = 9;
  byte1 = 246;
  byte2 = 200;
  left = 1;
  right = 0;
  x = 390;
  y = 340;
}
unfolding on_bytes mouse_handler on_packet
packet_run = refl

resting-IsInside : IsInside 800 600 resting
resting-IsInside = record { waiting = omega arith; column = omega arith; row = omega arith }

on_bytes-IsInside_example : IsInside 800 600 (on_bytes 800 600 (0 ∷ 9 ∷ 246 ∷ 200 ∷ []) resting)
on_bytes-IsInside_example =
    on_bytes-IsInside 800 600 (0 ∷ 9 ∷ 246 ∷ 200 ∷ []) resting resting-IsInside
