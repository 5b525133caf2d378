-- ===== src/Keyboard/Queue.antt =====
-- What the keyboard ring promises: a queue of at most 255 scancodes that drops what does not fit.
use calculatoros.Prelude.{ℕ, ◌++◌, List, [], ◌∷◌, ltb, if◌then◌else◌, length}

-- One slot of the ring stays empty, so that a full ring differs from an empty one.
abbrev pub queue_max : ℕ
queue_max = 255

pub data Event : Type 0 where
  press : ℕ → Event
  take : Event
  flush : Event

unfoldable pub push : ℕ → List ℕ → List ℕ
push x q = if ltb (length q) queue_max then q ++ (x ∷ []) else q

unfoldable pub pop : List ℕ → ℕ × List ℕ
pop [] = (0, [])
pop (x ∷ q) = (x, q)

-- The answers of a sequence of events, oldest first.
unfoldable pub run : List ℕ → List Event → List ℕ
run q [] = []
run q (press x ∷ es) = run (push x q) es
run q (take ∷ es) = let (x, q') = pop q in x ∷ run q' es
run q (flush ∷ es) = run [] es
