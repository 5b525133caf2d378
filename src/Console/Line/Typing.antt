-- ===== src/Console/Line/Typing.antt =====
-- A line that is typed to its end is returned.
use calculatoros.Prelude.{
  ℕ, zero, suc, ◌+◌, ◌-◌, ◌≤◌, ◌<◌, ◌≡◌, ◌≢◌, ◌∙◌, refl, ap, sym, subst, Bool, true, false, ◌||◌,
  Option, none, some, List, [], ◌∷◌, ◌++◌, map, ◌==◌, ltb, leb, arith, if◌then◌else◌, length,
  get_or, length-append,
}
use mathlib.Core.List.{append_assoc, append-nil}
use calculatoros.Memory.{Mem}
use calculatoros.Keyboard.{Keys, has_key, get_key}
use calculatoros.Keyboard.Queue
use calculatoros.Keyboard.Refine.{IsValid, contents, get_key_refines, get_key-IsValid, has_key_iff}
use calculatoros.Console.Line.{
  Console, scancode_table, key_char, refreshed, place_cursor, copied, on_insert, on_erase, on_char,
  on_scancode, started, on_keys, read_line,
}
use calculatoros.Console.Line.Bounds.{IsLine, on_char-Keeps}
use calculatoros.Console.Line.Text.{
  insert_end, type_key, span, edited, length-span, span-copied, on_char-type_key,
}

-- `read_line` until it returns 1, at most so many times.
unfoldable pub await_line : ℕ → ℕ → Mem → Console → Option (Mem × Console)
await_line zero max_len buffer s = none
await_line (suc calls) max_len buffer s =
    let (done, buffer', s') = read_line max_len buffer s in
    let later = await_line calls max_len buffer' s' in if done then some (buffer', s') else later

abbrev pub char_of : ℕ → ℕ
char_of scancode = get_or scancode_table scancode 0

-- A key that is pressed, is no shift or caps lock, and stands for a character that is inserted.
pub record IsPlain (scancode : ℕ) : Type 0 where
  pub pressed : scancode < 128
  pub no_modifier : (scancode == 42 || scancode == 54 || scancode == 58) ≡ false
  pub visible : (char_of scancode == 0 || char_of scancode == 10 || char_of scancode == 8) ≡ false

-- A line is being typed: `text` so far, with the cursor at its end, and `keys` not yet read.
pub record Typing (max_len : ℕ) (text keys : List ℕ) (s : Console) : Type 0 where
  pub active : s.line.input_active ≡ true
  pub no_shift : s.line.shift ≡ false
  pub is_line : IsLine max_len s.line
  pub valid : IsValid s.keys
  pub waiting : contents s.keys ≡ keys
  pub typed : edited s.line ≡ record { text = text; cursor = length text }

-- What `get_key` gives while a key is waiting.
record Next (scancode : ℕ) (rest : List ℕ) (k : Keys) : Type 0 where
  some_key : has_key k ≡ true
  first : (get_key k).0 ≡ scancode
  valid : IsValid (get_key k).1
  others : contents (get_key k).1 ≡ rest

key_follows :
    (scancode : ℕ) (rest : List ℕ) (k : Keys)
    → IsValid k
    → contents k ≡ scancode ∷ rest
    → Next scancode rest k
unfolding Queue.pop
key_follows scancode rest k v e =
    let popped = get_key_refines v ∙ ap Queue.pop e in
    record {
      some_key = (has_key_iff v).1 (λ z. cc (z, e));
      first = ap (λ r. r.0) popped;
      valid = get_key-IsValid v;
      others = ap (λ r. r.1) popped;
    }

-- What inserting a character leaves alone.
record Same (s s' : Console) : Type 0 where
  same_active : s'.line.input_active ≡ s.line.input_active
  same_shift : s'.line.shift ≡ s.line.shift
  same_keys : s'.keys ≡ s.keys

on_char-Same :
    (max_len : ℕ) (buffer : Mem) (c : ℕ) (s : Console)
    → c ≢ 10
    → ((on_char max_len buffer c s).0 ≡ false) × Same s (on_char max_len buffer c s).2
unfolding on_char refreshed place_cursor on_insert on_erase
on_char-Same max_len buffer c s n = (
  ground arith,
  record { same_active = ground arith; same_shift = ground arith; same_keys = ground arith },
)

type_key_end :
    (max_len c : ℕ) (text : List ℕ)
    → c ≢ 8
    → length text < max_len - 1
    → type_key max_len c (record { text = text; cursor = length text })
      ≡ record { text = text ++ (c ∷ []); cursor = length (text ++ (c ∷ [])) }
unfolding type_key
type_key_end max_len c text n room =
    let no_back : (c == 8) ≡ false = ground arith in
    let fits : ltb (length text) (max_len - 1) ≡ true = ground arith in
    let longer : length (text ++ (c ∷ [])) ≡ length text + 1 =
      omega (arith, length-append text (c ∷ [])) in
    rw (no_back, fits, longer, insert_end text c) refl

module _ (max_len : ℕ) (some_room : 0 < max_len) where
  type_char :
      (buffer : Mem) (c : ℕ) (text keys : List ℕ) (s : Console)
      → Typing max_len text keys s
      → c ≢ 10
      → c ≢ 8
      → length text < max_len - 1
      → let r = on_char max_len buffer c s in
        ((r.0) ≡ false) × Typing max_len (text ++ (c ∷ [])) keys (r.2)
  type_char buffer c text keys s h n b room =
      let (going, same) = on_char-Same max_len buffer c s n in
      (
        going,
        record {
          active = same.same_active ∙ h.active;
          no_shift = same.same_shift ∙ h.no_shift;
          is_line = (on_char-Keeps max_len some_room buffer c s h.is_line).is_line;
          valid = rw same.same_keys h.valid;
          waiting = rw same.same_keys h.waiting;
          typed =
              on_char-type_key max_len buffer c s h.is_line n
              ∙ ap (type_key max_len c) h.typed
              ∙ type_key_end max_len c text b room;
        },
      )

  -- With a key waiting, `read_line` reads it.
  read_key :
      (buffer : Mem) (scancode : ℕ) (text keys : List ℕ) (s : Console)
      → Typing max_len text (scancode ∷ keys) s
      → let s' = record s { keys = (get_key s.keys).1 } in
        (read_line max_len buffer s ≡ on_scancode max_len buffer scancode s')
        × Typing max_len text keys s'
  unfolding read_line started on_keys
  read_key buffer scancode text keys s h =
      let next = key_follows scancode keys s.keys h.valid h.waiting in
      (
        rw (h.active, next.some_key, next.first) refl,
        record {
          active = h.active;
          no_shift = h.no_shift;
          is_line = h.is_line;
          valid = next.valid;
          waiting = next.others;
          typed = h.typed;
        },
      )

  plain_key :
      (buffer : Mem) (scancode : ℕ) (s : Console)
      → IsPlain scancode
      → s.line.shift ≡ false
      → on_scancode max_len buffer scancode s ≡ on_char max_len buffer (char_of scancode) s
  unfolding on_scancode key_char
  plain_key buffer scancode s p h =
      let e0 : (scancode == 224) ≡ false = ground (arith, p.pressed) in
      let e1 : (scancode == 42 || scancode == 54) ≡ false = ground (arith, p.no_modifier) in
      let e2 : (scancode == 170 || scancode == 182) ≡ false = ground (arith, p.pressed) in
      let e3 : (scancode == 58) ≡ false = ground (arith, p.no_modifier) in
      let e4 : leb 128 scancode ≡ false = ground (arith, p.pressed) in
      let e5 : (char_of scancode == 0) ≡ false = ground (arith, p.visible) in
      rw (e0, e1, e2, e3, e4, e5, h) refl

  enter_key :
      (buffer : Mem) (s : Console)
      → s.line.shift ≡ false
      → on_scancode max_len buffer 28 s ≡ on_char max_len buffer 10 s
  unfolding on_scancode key_char
  enter_key buffer s h = rw h refl

await_line_more :
    (calls max_len : ℕ) (buffer : Mem) (s : Console) {r : Bool × Mem × Console}
    → read_line max_len buffer s ≡ r
    → (r.0) ≡ false
    → await_line (suc calls) max_len buffer s ≡ await_line calls max_len (r.1) (r.2)
unfolding await_line
await_line_more calls max_len buffer s e f = rw (e, f) refl

-- What the caller has when the line is done: its text, ended by a NUL, and the keys behind it still
-- waiting.
pub record Returned (text rest : List ℕ) (r : Option (Mem × Console)) : Type 0 where
  pub buffer : Mem
  pub state : Console
  pub returns : r ≡ some (buffer, state)
  pub reads : span buffer 0 (length text) ≡ text
  pub ended : buffer (length text) ≡ 0
  pub left : contents state.keys ≡ rest

abbrev pub AllPlain : List ℕ → Type 0
AllPlain [] = Unit
AllPlain (x ∷ xs) = IsPlain x × AllPlain xs

-- The scancode of the Enter key.
abbrev pub enter_code : ℕ
enter_code = 28

module _ (max_len : ℕ) (some_room : 0 < max_len) where
  on_enter :
      (buffer : Mem) (text rest : List ℕ) (s : Console)
      → Typing max_len text rest s
      → (on_char max_len buffer 10 s).0 ≡ true
        × (span (on_char max_len buffer 10 s).1 0 (length text) ≡ text)
        × ((on_char max_len buffer 10 s).1 (length text) ≡ 0)
        × (contents (on_char max_len buffer 10 s).2.keys ≡ rest)
  unfolding on_char
  on_enter buffer text rest s h =
      let l = s.line in
      let b = copied max_len l buffer in
      let text_eq : span l.input_buffer 0 l.input_len ≡ text = ap (λ e. e.text) h.typed in
      let size : length text ≡ l.input_len =
        ap length (sym text_eq) ∙ length-span l.input_buffer 0 l.input_len in
      (
        refl,
        ap (span b 0) size
            ∙ span-copied max_len l buffer l.input_len 0 (omega arith) h.is_line.fits
            ∙ text_eq,
        ground (arith, size),
        h.waiting,
      )

  finish_line :
      (buffer : Mem) (text rest : List ℕ) (s : Console)
      → Typing max_len text (enter_code ∷ rest) s
      → Returned text rest (await_line 1 max_len buffer s)
  unfolding await_line
  finish_line buffer text rest s h =
      let (reading, h') = read_key max_len some_room buffer enter_code text rest s h in
      let s' = record s { keys = (get_key s.keys).1 } in
      let entered = reading ∙ enter_key max_len some_room buffer s' h'.no_shift in
      let r = on_char max_len buffer 10 s' in
      let (done, reads, ended, left) = on_enter buffer text rest s' h' in
      record {
        buffer = r.1;
        state = r.2;
        returns = rw (entered, done) refl;
        reads = reads;
        ended = ended;
        left = left;
      }

  -- While a line is typed with the cursor at its end and no shift key is down, let scancodes of
  -- characters that fit the buffer wait in the keyboard buffer with an Enter behind them. Then
  -- `read_line` returns 1 at the last of as many calls as there are scancodes: the caller's buffer
  -- holds the text typed before and those characters, with a NUL behind, and what stands behind the
  -- Enter still waits.
  pub await_line-Returned :
      (xs : List ℕ) (buffer : Mem) (text rest : List ℕ) (s : Console)
      → AllPlain xs
      → length text + length xs ≤ max_len - 1
      → Typing max_len text (xs ++ (enter_code ∷ rest)) s
      → Returned (text ++ map char_of xs) rest (await_line (suc (length xs)) max_len buffer s)
  await_line-Returned [] buffer text rest s p fits h =
      subst (λ t. Returned t rest (await_line 1 max_len buffer s)) (sym (append-nil text))
        (finish_line buffer text rest s h)
  await_line-Returned (x ∷ xs) buffer text rest s (p, ps) fits h =
      let (reading, h') =
        read_key max_len some_room buffer x text (xs ++ (enter_code ∷ rest)) s h in
      let s' = record s { keys = (get_key s.keys).1 } in
      let typed = reading ∙ plain_key max_len some_room buffer x s' p h'.no_shift in
      let no_line : char_of x ≢ 10 = ground (arith, p.visible) in
      let no_back : char_of x ≢ 8 = ground (arith, p.visible) in
      let (going, h'') =
        type_char max_len some_room buffer (char_of x) text (xs ++ (enter_code ∷ rest)) s' h'
          no_line no_back (omega arith) in
      let r = on_char max_len buffer (char_of x) s' in
      let grown : length (text ++ (char_of x ∷ [])) ≡ length text + 1 =
        omega (arith, length-append text (char_of x ∷ [])) in
      let ih =
        await_line-Returned xs (r.1) (text ++ (char_of x ∷ [])) rest (r.2) ps (omega arith) h'' in
      subst (λ m. Returned (text ++ map char_of (x ∷ xs)) rest m)
        (sym (await_line_more (suc (length xs)) max_len buffer s typed going))
        (subst (λ t. Returned t rest (await_line (suc (length xs)) max_len (r.1) (r.2)))
          (append_assoc text (char_of x ∷ []) (map char_of xs)) ih)
