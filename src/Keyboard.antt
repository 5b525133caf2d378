-- ===== src/Keyboard.antt =====
-- keyboard_buffer.c: the ring of scancodes between the keyboard interrupt and the console.
pub mod Queue
pub mod Refine
mod Tests
use calculatoros.Prelude.{ℕ, ◌+◌, ◌%◌, Bool, not, List, ◌==◌, if◌then◌else◌, get_or, set}

abbrev pub keybuf_size : ℕ
keybuf_size = 256

-- `keybuf`, `key_head` and `key_tail`.
pub record Keys : Type 0 where
  pub keybuf : List ℕ
  pub key_head : ℕ
  pub key_tail : ℕ

-- The scancode is what `inb(0x60)` returned; `apic_send_eoi` touches none of this state.
pub keyboard_handler : ℕ → Keys → Keys
keyboard_handler scancode k =
    let next = (k.key_head + 1) % keybuf_size in
    if next == k.key_tail
    then k
    else record k { keybuf = set k.keybuf k.key_head scancode; key_head = next }

pub has_key : Keys → Bool
has_key k = not (k.key_tail == k.key_head)

pub get_key : Keys → ℕ × Keys
get_key k =
    if k.key_tail == k.key_head
    then (0, k)
    else (get_or k.keybuf k.key_tail 0, record k { key_tail = (k.key_tail + 1) % keybuf_size })

pub flush_keys : Keys → Keys
flush_keys k = record k { key_tail = k.key_head }
