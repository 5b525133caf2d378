-- ===== src/CString/Laws.antt =====
-- The comparisons decide equality and the prefix relation.
use calculatoros.Prelude.{ℕ, ◌≡◌, ◌↔◌, refl, true, List, [], ◌∷◌, ◌++◌, arith}
use calculatoros.CString.{streq, starts_with}

streq-eq : (a b : List ℕ) → streq a b ≡ true → a ≡ b
unfolding streq
streq-eq [] [] h = refl
streq-eq [] (d ∷ b) h = cc
streq-eq (c ∷ a) [] h = cc
streq-eq (c ∷ a) (d ∷ b) h = ground (arith, streq-eq a b)

pub streq_refl : (a : List ℕ) → streq a a ≡ true
unfolding streq
streq_refl [] = refl
streq_refl (c ∷ a) = ground (arith, streq_refl a)

-- `streq` says yes exactly where the strings are equal.
pub streq_iff : (a b : List ℕ) → (streq a b ≡ true) ↔ (a ≡ b)
streq_iff a b = (streq-eq a b, λ e. rw e (streq_refl b))

pub starts_with-append : (p s : List ℕ) → starts_with (p ++ s) p ≡ true
unfolding starts_with
starts_with-append [] s = refl
starts_with-append (c ∷ p) s = ground (arith, starts_with-append p s)
