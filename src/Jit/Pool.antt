-- ===== src/Jit/Pool.antt =====
-- `assemble_and_execute` stays inside `jit_pool`.
use calculatoros.Prelude.{
  ℕ, zero, suc, ◌+◌, ◌%◌, ◌≤◌, ◌<◌, ◌≡◌, refl, Option, none, some, List, [], ◌∷◌, ◌++◌, length,
  length-append, get_or, ◌∙◌, arith, ◌⊎◌,
}
use calculatoros.Memory.{Mem, store}
use calculatoros.Jit.{
  assemble, Jit, pool_size, make_room, emit, place, execute, finish, assemble_and_execute,
}
use calculatoros.Jit.Bounds.{assemble-IsShort}

-- From the place that is made, the longest code and its `ret` fit in the pool.
pub make_room-Fits :
    (offset : ℕ) → offset < pool_size → make_room offset + 8 < pool_size × make_room offset % 16 ≡ 0
unfolding make_room
make_room-Fits offset h = (ground arith, ground arith)

emit_outside :
    (at : ℕ) (code : List ℕ) (m : Mem) (a : ℕ)
    → (a < at) ⊎ (at + length code ≤ a)
    → emit at code m a ≡ m a
unfolding emit
emit_outside at [] m a h = refl
emit_outside at (b ∷ bs) m a h =
    emit_outside (at + 1) bs (store m at b) a (ground arith) ∙ ground arith

emit_inside :
    (at : ℕ) (code : List ℕ) (m : Mem) (k : ℕ)
    → k < length code
    → emit at code m (at + k) ≡ get_or code k 0
unfolding emit
emit_inside at [] m k h = ground arith
emit_inside at (b ∷ bs) m zero h =
    emit_outside (at + 1) bs (store m at b) (at + 0) (ground arith) ∙ ground arith
emit_inside at (b ∷ bs) m (suc k) h =
    let e : at + suc k ≡ at + 1 + k = omega arith in
    rw e (emit_inside (at + 1) bs (store m at b) k (omega arith))

-- What `jit_pool` and the memory after it hold once `code` is placed.
pub record IsPlaced (code : List ℕ) (before after : Jit) : Type 0 where
  pub code_there : (k : ℕ) → k < length code → after.pool (before.offset + k) ≡ get_or code k 0
  pub ret_there : after.pool (before.offset + length code) ≡ 195
  pub fits : before.offset + length code < pool_size
  pub aligned : before.offset % 16 ≡ 0
  pub rest_same :
      (a : ℕ)
      → (a < before.offset) ⊎ (before.offset + length code < a)
      → after.pool a ≡ before.pool a

get_or-append_left :
    (xs ys : List ℕ) (k : ℕ) → k < length xs → get_or (xs ++ ys) k 0 ≡ get_or xs k 0
get_or-append_left [] ys k h = ground arith
get_or-append_left (x ∷ xs) ys zero h = refl
get_or-append_left (x ∷ xs) ys (suc k) h = get_or-append_left xs ys k (omega arith)

get_or-append_at : (xs : List ℕ) (y : ℕ) → get_or (xs ++ (y ∷ [])) (length xs) 0 ≡ y
get_or-append_at [] y = refl
get_or-append_at (x ∷ xs) y = get_or-append_at xs y

-- From an offset inside the pool, the code of an accepted line is placed inside the pool, on a
-- multiple of 16, with a `ret` after it, and no other byte of memory changes.
pub place-IsPlaced :
    (line code : List ℕ) (jit : Jit)
    → jit.offset < pool_size
    → assemble line ≡ some code
    → IsPlaced code
        (record jit { offset = make_room jit.offset })
        (place code (record jit { offset = make_room jit.offset }))
unfolding place
place-IsPlaced line code jit h e =
    let short = assemble-IsShort line code e in
    let (room, on16) = make_room-Fits jit.offset h in
    let whole = length-append code (195 ∷ []) in
    let o = make_room jit.offset in
    record {
      code_there = λ k hk.
          emit_inside o (code ++ (195 ∷ [])) jit.pool k (omega (arith, whole))
          ∙ get_or-append_left code (195 ∷ []) k hk;
      ret_there =
          emit_inside o (code ++ (195 ∷ [])) jit.pool (length code) (omega (arith, whole))
          ∙ get_or-append_at code 195;
      fits = omega arith;
      aligned = on16;
      rest_same = λ a ha. emit_outside o (code ++ (195 ∷ [])) jit.pool a (ground (arith, whole));
    }

finish_offset :
    (run : Mem → ℕ → ℕ × Mem) (o : Option (List ℕ)) (jit : Jit)
    → jit.offset + 8 < pool_size
    → ((code : List ℕ) → o ≡ some code → length code ≤ 7)
    → (finish run o jit).1.1.offset < pool_size
unfolding finish execute
finish_offset run none jit room h = omega arith
finish_offset run (some code) jit room h = let short = h code refl in omega arith

-- Whatever the machine does, a call that starts with `jit_offset` inside the pool ends with it
-- inside the pool.
pub assemble_and_execute-offset :
    (run : Mem → ℕ → ℕ × Mem) (line : List ℕ) (jit : Jit)
    → jit.offset < pool_size
    → (assemble_and_execute run line jit).1.1.offset < pool_size
unfolding assemble_and_execute
assemble_and_execute-offset run line jit h =
    let (room, on16) = make_room-Fits jit.offset h in
    finish_offset run (assemble line) (record jit { offset = make_room jit.offset }) room
      (assemble-IsShort line)
