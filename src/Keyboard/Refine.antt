-- ===== src/Keyboard/Refine.antt =====
-- The ring of keyboard_buffer.c behaves as the queue of the scancodes that it holds.
use calculatoros.Prelude.{
  ℕ, zero, suc, ◌+◌, ◌-◌, ◌%◌, ◌<◌, ◌≡◌, ◌≢◌, ◌↔◌, ◌⊎◌, inl, inr, Bool-cases, refl, ap, true, false,
  List, [], ◌∷◌, ◌++◌, arith, ◌==◌, length, get_or, set, length-set,
}
use calculatoros.Keyboard.{Keys, keybuf_size, keyboard_handler, has_key, get_key, flush_keys}
use calculatoros.Keyboard.Queue
use calculatoros.Keyboard.Queue.{Event, press, take, flush, queue_max}

pub record IsValid (k : Keys) : Type 0 where
  pub storage : length k.keybuf ≡ keybuf_size
  pub head_in : k.key_head < keybuf_size
  pub tail_in : k.key_tail < keybuf_size

-- The number of scancodes held.
abbrev pub count : Keys → ℕ
count k = (k.key_head + keybuf_size - k.key_tail) % keybuf_size

-- The `n` bytes from index `t` on, going round at the end of the array.
abbrev pub window : List ℕ → ℕ → ℕ → List ℕ
window buf t zero = []
window buf t (suc n) = get_or buf t 0 ∷ window buf ((t + 1) % keybuf_size) n

abbrev pub contents : Keys → List ℕ
contents k = window k.keybuf k.key_tail (count k)

length-window : (buf : List ℕ) (t n : ℕ) → length (window buf t n) ≡ n
length-window buf t zero = refl
length-window buf t (suc n) = ap suc (length-window buf ((t + 1) % keybuf_size) n)

window_of_pos :
    (buf : List ℕ) (t n : ℕ)
    → 0 < n
    → window buf t n ≡ get_or buf t 0 ∷ window buf ((t + 1) % keybuf_size) (n - 1)
window_of_pos buf t zero h = absurd (omega arith)
window_of_pos buf t (suc n) h =
    ap (λ m. get_or buf t 0 ∷ window buf ((t + 1) % keybuf_size) m) (omega arith)

get_or-set_self : (xs : List ℕ) (i v : ℕ) → i < length xs → get_or (set xs i v) i 0 ≡ v
get_or-set_self [] i v h = absurd (omega arith)
get_or-set_self (x ∷ xs) zero v h = refl
get_or-set_self (x ∷ xs) (suc i) v h = get_or-set_self xs i v (omega arith)

get_or-set_ne : (xs : List ℕ) (i j v : ℕ) → i ≢ j → get_or (set xs i v) j 0 ≡ get_or xs j 0
get_or-set_ne [] i j v h = refl
get_or-set_ne (x ∷ xs) zero zero v h = absurd (h refl)
get_or-set_ne (x ∷ xs) zero (suc j) v h = refl
get_or-set_ne (x ∷ xs) (suc i) zero v h = refl
get_or-set_ne (x ∷ xs) (suc i) (suc j) v h = get_or-set_ne xs i j v (λ e. h (ap suc e))

-- Writing just past a window extends it by that byte.
window-set :
    (buf : List ℕ) (x n t i : ℕ)
    → length buf ≡ keybuf_size
    → t < keybuf_size
    → n < keybuf_size
    → i ≡ (t + n) % keybuf_size
    → window (set buf i x) t (suc n) ≡ window buf t n ++ (x ∷ [])
window-set buf x zero t i hs ht hn e =
    ap (λ b. b ∷ []) (let e' : i ≡ t = omega arith in rw e' (get_or-set_self buf t x (omega arith)))
window-set buf x (suc n) t i hs ht hn e = cc (
  get_or-set_ne buf i t x (omega arith),
  window-set buf x n ((t + 1) % keybuf_size) i hs (omega arith) (omega arith) (omega arith),
)

length-contents : (k : Keys) → length (contents k) ≡ count k
length-contents k = length-window k.keybuf k.key_tail (count k)

-- The interrupt handler keeps the indices and the storage in range.
pub keyboard_handler-IsValid : (x : ℕ) {k : Keys} → IsValid k → IsValid (keyboard_handler x k)
unfolding keyboard_handler
keyboard_handler-IsValid x {k} v = ground (arith, length-set k.keybuf k.key_head x)

pub get_key-IsValid : {k : Keys} → IsValid k → IsValid (get_key k).1
unfolding get_key
get_key-IsValid v = ground arith

flush_keys-IsValid : {k : Keys} → IsValid k → IsValid (flush_keys k)
unfolding flush_keys
flush_keys-IsValid v = ground arith

-- The interrupt handler appends the scancode to what is held, or drops it when 255 are held.
pub keyboard_handler_refines :
    (x : ℕ) {k : Keys} → IsValid k → contents (keyboard_handler x k) ≡ Queue.push x (contents k)
unfolding keyboard_handler Queue.push
keyboard_handler_refines x {k} v =
    ground (arith, length-contents k, window-set k.keybuf x (count k) k.key_tail k.key_head)

pub get_key_refines :
    {k : Keys} → IsValid k → let (x, k') = get_key k in (x, contents k') ≡ Queue.pop (contents k)
unfolding get_key Queue.pop
get_key_refines {k} v = ground (arith, window_of_pos k.keybuf k.key_tail (count k))

flush_keys_refines : {k : Keys} → IsValid k → contents (flush_keys k) ≡ []
unfolding flush_keys
flush_keys_refines {k} v =
    let e : count (flush_keys k) ≡ 0 = omega arith in ap (window k.keybuf k.key_head) e

-- What the console sees of the events: the answers of `get_key`, oldest first.
unfoldable pub run : Keys → List Event → List ℕ
run k [] = []
run k (press x ∷ es) = run (keyboard_handler x k) es
run k (take ∷ es) = let (x, k') = get_key k in x ∷ run k' es
run k (flush ∷ es) = run (flush_keys k) es

-- From a valid ring, any interleaving of key presses, `get_key` and `flush_keys` gives the answers
-- of the bounded queue that starts with the same scancodes.
pub run_refines : (es : List Event) {k : Keys} → IsValid k → run k es ≡ Queue.run (contents k) es
unfolding run Queue.run
run_refines [] v = refl
run_refines (press x ∷ es) v =
    rw (run_refines es (keyboard_handler-IsValid x v), keyboard_handler_refines x v)
run_refines (take ∷ es) v = rw (run_refines es (get_key-IsValid v), ← get_key_refines v)
run_refines (flush ∷ es) v = rw (run_refines es (flush_keys-IsValid v), flush_keys_refines v)

-- `has_key` says whether a scancode is held.
pub has_key_iff : {k : Keys} → IsValid k → (has_key k ≡ true) ↔ (contents k ≢ [])
unfolding has_key
has_key_iff {k} v = (
  λ h e. ground (arith, length-contents k, ap length e),
  λ h. held h (Bool-cases (k.key_tail == k.key_head)),
)
  where
    held :
        contents k ≢ []
        → (k.key_tail == k.key_head ≡ true) ⊎ (k.key_tail == k.key_head ≡ false)
        → has_key k ≡ true
    held h (inl e) =
        absurd (h (let z : count k ≡ 0 = ground arith in ap (window k.keybuf k.key_tail) z))
    held h (inr e) = rw e
