-- ===== src/CString.antt =====
-- The string functions of kernel.c. A C string is the list of its bytes, without the NUL; what
-- follows the last one reads as 0. A pointer into it is the rest of the list.
pub mod Laws
use Prim.Native.Char.{code}
use Prim.Native.String.{String}
use calculatoros.Prelude.{
  ℕ, suc, ◌+◌, Bool, true, false, ◌&&◌, List, [], ◌∷◌, ◌++◌, ◌==◌, if◌then◌else◌,
}

-- The bytes of a literal in the C code.
abbrev pub ascii : String → List ℕ
ascii literal = elim literal [
  | String.[] ↦ []
  | String.◌∷◌ symbol (rest → bytes) ↦ code symbol ∷ bytes
]

-- `*s`
abbrev pub head : List ℕ → ℕ
head [] = 0
head (c ∷ s) = c

-- `s + 1`, where `*s` is not NUL.
abbrev pub tail : List ℕ → List ℕ
tail [] = []
tail (c ∷ s) = s

-- `!strncmp(s, p, n)` for a literal `p` of `n` bytes, and `starts_with(s, p)`.
unfoldable pub starts_with : List ℕ → List ℕ → Bool
starts_with s [] = true
starts_with [] (c ∷ p) = false
starts_with (d ∷ s) (c ∷ p) = d == c && starts_with s p

-- `strcmp` of this program: 1 where the strings are equal. `streq` is the same.
unfoldable pub streq : List ℕ → List ℕ → Bool
streq [] [] = true
streq [] (d ∷ b) = false
streq (c ∷ a) [] = false
streq (c ∷ a) (d ∷ b) = c == d && streq a b

-- `while (*s == c) s++;`
unfoldable pub skip : ℕ → List ℕ → List ℕ
skip c [] = []
skip c (d ∷ s) = if d == c then skip c s else d ∷ s

-- `while (*s && *s != c) s++;`
unfoldable pub skip_to : ℕ → List ℕ → List ℕ
skip_to c [] = []
skip_to c (d ∷ s) = if d == c then d ∷ s else skip_to c s
