-- ===== src/Keyboard/Tests.antt =====
-- Runs of the keyboard ring.
use calculatoros.Prelude.{◌≡◌, refl, List, [], ◌∷◌, ◌++◌, arith, replicate}
use calculatoros.Keyboard.{Keys, keyboard_handler, get_key, flush_keys}
use calculatoros.Keyboard.Queue
use calculatoros.Keyboard.Queue.{Event, press, take, flush}
use calculatoros.Keyboard.Refine.{IsValid, contents, run, run_refines}

-- Two scancodes round the end of the array.
abbrev wrapped : Keys
wrapped = record { keybuf = 31 ∷ replicate 254 0 ++ (30 ∷ []); key_head = 1; key_tail = 255 }

abbrev events : List Event
events = press 50 ∷ take ∷ take ∷ flush ∷ take ∷ []

wrapped-IsValid : IsValid wrapped
wrapped-IsValid = omega arith

run-wrapped : run wrapped events ≡ 30 ∷ 31 ∷ 0 ∷ []
unfolding run keyboard_handler get_key flush_keys
run-wrapped = refl

run_refines_example : run wrapped events ≡ Queue.run (contents wrapped) events
run_refines_example = run_refines events wrapped-IsValid
