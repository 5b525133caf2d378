-- ===== src/Acpi/Bytes.antt =====
-- The bytes that the search for the tables compares and adds up.
use calculatoros.Prelude.{
  ℕ, zero, suc, ◌+◌, ◌%◌, ◌<◌, ◌≡◌, ◌∙◌, ap, refl, true, List, [], ◌∷◌, ◌==◌, arith,
}
use calculatoros.Memory.{Mem}
use calculatoros.Acpi.{same_bytes, checksum, sum_of}

-- The sum of the `n` bytes from `a` on.
abbrev pub total : ℕ → Mem → ℕ → ℕ
total zero m a = 0
total (suc n) m a = m a + total n m (a + 1)

-- The text `s` stands at `a`.
abbrev pub Has : Mem → ℕ → List ℕ → Type 0
Has m a [] = Unit
Has m a (c ∷ s) = (m a ≡ c) × Has m (a + 1) s

pub same_bytes-Has : (m : Mem) (s : List ℕ) (a : ℕ) → same_bytes m a s ≡ true → Has m a s
unfolding same_bytes
same_bytes-Has m [] a h = tt
same_bytes-Has m (c ∷ s) a h = (ground arith, same_bytes-Has m s (a + 1) (ground arith))

pub same_bytes_of_Has : (m : Mem) (s : List ℕ) (a : ℕ) → Has m a s → same_bytes m a s ≡ true
unfolding same_bytes
same_bytes_of_Has m [] a h = refl
same_bytes_of_Has m (c ∷ s) a (e, h) = let rest = same_bytes_of_Has m s (a + 1) h in ground arith

sum_of-total :
    (n sum : ℕ) (m : Mem) (a : ℕ) → sum < 256 → sum_of n sum m a ≡ (sum + total n m a) % 256
unfolding sum_of
sum_of-total zero sum m a h = omega arith
sum_of-total (suc n) sum m a h =
    sum_of-total n ((sum + m a) % 256) m (a + 1) (omega arith) ∙ omega arith

pub checksum-total : (m : Mem) (a n : ℕ) → checksum m a n ≡ (total n m a % 256 == 0)
unfolding checksum
checksum-total m a n = ap (λ s. s == 0) (sum_of-total n 0 m a (omega arith) ∙ omega arith)
