-- ===== src/Bitmap/Laws.antt =====
-- Setting or clearing one bit leaves every other bit as it is.
use calculatoros.Prelude.{
  ℕ, zero, suc, ◌+◌, ◌/◌, ◌%◌, ◌<◌, ◌≡◌, ◌≤◌, refl, subst, ℕ_discrete, Bool, true, false, not, ◌&&◌,
  ◌||◌, arith, ◌==◌, ltb,
}
use calculatoros.Memory.{Mem}
use calculatoros.Bitmap.{test_bit, set_bit, clear_bit, test, set, clear}

-- The test holds at each of the `left` numbers from `i` on.
each : ℕ → ℕ → (ℕ → Bool) → Bool
each zero i ok = true
each (suc left) i ok = ok i && each left (i + 1) ok

each_at :
    (left i : ℕ) (ok : ℕ → Bool) (k : ℕ)
    → each left i ok ≡ true
    → i ≤ k
    → k < i + left
    → ok k ≡ true
unfolding each
each_at zero i ok k all lo hi = absurd (omega arith)
each_at (suc left) i ok k all lo hi = elim (ℕ_discrete i k) [
  | yes e ↦ subst (λ n. ok n ≡ true) e (ground arith)
  | no ne ↦ each_at left (i + 1) ok k (ground arith) (omega arith) (omega arith)
]

iffb : Bool → Bool → Bool
iffb true b = b
iffb false b = not b

iffb→eq : (a b : Bool) → iffb a b ≡ true → a ≡ b
unfolding iffb
iffb→eq a b h = ground arith

-- A property of a byte and two bit numbers, checked at every value.
all_bits : (ℕ → ℕ → ℕ → Bool) → Bool
all_bits p = each 256 0 λ b. each 8 0 λ k. each 8 0 λ j. p b k j

all_bits_sound :
    (p : ℕ → ℕ → ℕ → Bool)
    → all_bits p ≡ true
    → (b k j : ℕ) → b < 256
    → k < 8
    → j < 8
    → p b k j ≡ true
unfolding all_bits
all_bits_sound p h b k j hb hk hj =
    each_at 8 0 _ j (each_at 8 0 _ k (each_at 256 0 _ b h (omega arith) hb) (omega arith) hk)
      (omega arith) hj

set_table : all_bits (λ b k j. iffb (test_bit (set_bit b k) j) (k == j || test_bit b j)) ≡ true
unfolding all_bits each iffb test_bit set_bit
set_table = refl

clear_table :
    all_bits (λ b k j. iffb (test_bit (clear_bit b k) j) (not (k == j) && test_bit b j)) ≡ true
unfolding all_bits each iffb test_bit clear_bit
clear_table = refl

test_bit-set_bit :
    (b k j : ℕ) → b < 256 → k < 8 → j < 8 → test_bit (set_bit b k) j ≡ (k == j || test_bit b j)
test_bit-set_bit b k j hb hk hj = iffb→eq _ _ (all_bits_sound _ set_table b k j hb hk hj)

test_bit-clear_bit :
    (b k j : ℕ)
    → b < 256
    → k < 8
    → j < 8
    → test_bit (clear_bit b k) j ≡ (not (k == j) && test_bit b j)
test_bit-clear_bit b k j hb hk hj = iffb→eq _ _ (all_bits_sound _ clear_table b k j hb hk hj)

module _ (base : ℕ) (m : Mem) (i j : ℕ) (byte : m (base + i / 8) < 256) where
  -- After setting bit `i`, bit `j` is set if it is bit `i` or was set before.
  pub test-set : test base (set base m i) j ≡ (i == j || test base m j)
  unfolding test set
  test-set = ground (arith, test_bit-set_bit (m (base + i / 8)) (i % 8) (j % 8))

  -- After clearing bit `i`, bit `j` is set if it was set before and is not bit `i`.
  pub test-clear : test base (clear base m i) j ≡ (not (i == j) && test base m j)
  unfolding test clear
  test-clear = ground (arith, test_bit-clear_bit (m (base + i / 8)) (i % 8) (j % 8))

byte_table : each 256 0 (λ b. each 8 0 λ k. ltb (set_bit b k) 256 && ltb (clear_bit b k) 256) ≡ true
unfolding each set_bit clear_bit
byte_table = refl

bit_bytes : (b k : ℕ) → b < 256 → k < 8 → (set_bit b k < 256) × (clear_bit b k < 256)
bit_bytes b k hb hk =
    let e : (ltb (set_bit b k) 256 && ltb (clear_bit b k) 256) ≡ true =
      each_at 8 0 _ k (each_at 256 0 _ b byte_table (omega arith) hb) (omega arith) hk in
    ground arith

-- Every entry is a byte.
abbrev pub AreBytes : Mem → Type 0
AreBytes m = (a : ℕ) → m a < 256

module _ (base : ℕ) (m : Mem) (i : ℕ) (bytes : AreBytes m) where
  pub set-AreBytes : AreBytes (set base m i)
  unfolding set
  set-AreBytes a =
      ground
        (arith, bytes a, bit_bytes (m (base + i / 8)) (i % 8) (bytes (base + i / 8)) (omega arith))

  pub clear-AreBytes : AreBytes (clear base m i)
  unfolding clear
  clear-AreBytes a =
      ground
        (arith, bytes a, bit_bytes (m (base + i / 8)) (i % 8) (bytes (base + i / 8)) (omega arith))

zero_table : each 8 0 (λ k. not (test_bit 0 k)) ≡ true
unfolding each test_bit
zero_table = refl

-- A zero byte has no bit set.
pub test-zero : (base : ℕ) (m : Mem) (i : ℕ) → m (base + i / 8) ≡ 0 → test base m i ≡ false
unfolding test
test-zero base m i e =
    rw e (ground (arith, each_at 8 0 _ (i % 8) zero_table (omega arith) (omega arith)))

no_bits : each 8 0 (λ j. not (test_bit 0 j)) ≡ true
unfolding each test_bit
no_bits = refl

-- A byte 0 has no bit.
pub test_bit_zero : (k : ℕ) → k < 8 → test_bit 0 k ≡ false
test_bit_zero k h =
    let clear = each_at 8 0 (λ j. not (test_bit 0 j)) k no_bits (omega arith) h in ground arith
