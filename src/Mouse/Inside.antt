-- ===== src/Mouse/Inside.antt =====
-- The pointer stays on the screen, and how far a packet moves it.
use calculatoros.Prelude.{ℕ, ◌+◌, ◌<◌, ◌≤◌, List, [], ◌∷◌, arith}
use calculatoros.Prelude.Int.{ℤ, pos, negsuc}
use calculatoros.Mouse.{Mouse, clamped, moved, on_packet, mouse_handler, on_bytes}

pub record IsInside (width height : ℕ) (m : Mouse) : Type 0 where
  pub waiting : m.cycle < 3
  pub column : m.x < width
  pub row : m.y < height

moved-inside : (limit n : ℕ) (d : ℤ) → 0 < limit → moved limit n d < limit
unfolding moved
moved-inside limit n (pos d) h = ground arith
moved-inside limit n (negsuc d) h = ground arith

moved_near :
    (limit n : ℕ) (d : ℤ)
    → n < limit
    → (moved limit n (clamped d) ≤ n + 40) × (n ≤ moved limit n (clamped d) + 40)
unfolding moved clamped
moved_near limit n (pos d) h = (ground arith, ground arith)
moved_near limit n (negsuc d) h = (ground arith, ground arith)

mouse_handler-IsInside :
    (width height b : ℕ) (m : Mouse)
    → IsInside width height m
    → IsInside width height (mouse_handler width height b m)
unfolding mouse_handler on_packet
mouse_handler-IsInside width height b m h =
    let inside_x = moved-inside width m.x in
    let inside_y = moved-inside height m.y in
    let c = h.column in
    let r = h.row in
    let w = h.waiting in
    record {
      waiting = ground arith;
      column = ground (arith, inside_x);
      row = ground (arith, inside_y);
    }

-- Whatever bytes the mouse sends, in packets or out of step, the pointer stays on the screen and the
-- cycle within a packet.
pub on_bytes-IsInside :
    (width height : ℕ) (bs : List ℕ) (m : Mouse)
    → IsInside width height m
    → IsInside width height (on_bytes width height bs m)
unfolding on_bytes
on_bytes-IsInside width height [] m h = h
on_bytes-IsInside width height (b ∷ bs) m h =
    on_bytes-IsInside width height bs (mouse_handler width height b m)
      (mouse_handler-IsInside width height b m h)
