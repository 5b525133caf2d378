-- ===== src/Memory.antt =====
-- Bytes of memory. A C array of bytes, or a region of memory, is a function from the index to the
-- byte there; writing past the end of an array is then a write to what follows it.
pub mod Words
pub mod Copy
use calculatoros.Prelude.{ℕ, ◌+◌, ◌-◌, ◌&&◌, ◌==◌, ltb, leb, if◌then◌else◌}

abbrev pub Mem : Type 0
Mem = ℕ → ℕ

-- `m[a] = v`
abbrev pub store : Mem → ℕ → ℕ → Mem
store m a v b = if a == b then v else m b

-- `memcpy(m + d, src, n)` of fs.c, for regions that do not overlap.
abbrev pub memcpy : Mem → ℕ → Mem → ℕ → Mem
memcpy m d src n a = if leb d a && ltb a (d + n) then src (a - d) else m a

-- The bytes from `a` on.
abbrev pub from : Mem → ℕ → Mem
from m a i = m (a + i)
