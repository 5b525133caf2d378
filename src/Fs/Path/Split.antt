-- ===== src/Fs/Path/Split.antt =====
-- `split_path` cuts a path at its last slash.
use calculatoros.Prelude.{
  ℕ, suc, ◌+◌, ◌≡◌, refl, ap, sym, Bool, false, ◌||◌, Option, none, some, List, [], ◌∷◌, ◌++◌, ◌==◌,
  length, take, drop, if◌then◌else◌, arith, Bool-cases, inl, inr, subst,
}
use calculatoros.CString.{ascii}
use calculatoros.Fs.Path.{last_slash, split_at, split_path}

unfoldable pub has_slash : List ℕ → Bool
has_slash [] = false
has_slash (c ∷ s) = c == b'/' || has_slash s

-- How a path and its two parts belong together.
pub data IsSplit : List ℕ → List ℕ × List ℕ → Type 0 where
  relative : {base : List ℕ} → has_slash base ≡ false → IsSplit base (ascii ".", base)
  in_root : {base : List ℕ} → has_slash base ≡ false → IsSplit (b'/' ∷ base) (ascii "/", base)
  nested :
      {c : ℕ}
      → {dir base : List ℕ} → has_slash base ≡ false
      → IsSplit ((c ∷ dir) ++ (b'/' ∷ base)) (c ∷ dir, base)

-- The slash at the index `k` of a path that starts at the index `i`, with none after it.
record Cut (i k : ℕ) (s : List ℕ) : Type 0 where
  pre : List ℕ
  post : List ℕ
  at : k ≡ i + length pre
  whole : s ≡ pre ++ (b'/' ∷ post)
  clean : has_slash post ≡ false

LastAt : ℕ → List ℕ → Option ℕ → Type 0
LastAt i s none = has_slash s ≡ false
LastAt i s (some k) = Cut i k s

last_slash-LastAt : (i : ℕ) (s : List ℕ) → LastAt i s (last_slash i s)
unfolding last_slash LastAt has_slash
last_slash-LastAt i [] = refl
last_slash-LastAt i (c ∷ s) = go (last_slash (i + 1) s) (last_slash-LastAt (i + 1) s)
  where
    go :
        (o : Option ℕ)
        → LastAt (i + 1) s o
        → LastAt i (c ∷ s) (elim o [ some k ↦ some k | none ↦ if c == b'/' then some i else none ])
    go (some k) h = record {
      pre = c ∷ h.pre;
      post = h.post;
      at = let e = h.at in omega arith;
      whole = ap (λ r. c ∷ r) h.whole;
      clean = h.clean;
    }
    go none h = elim (Bool-cases (c == b'/')) [
      | inl y ↦
          let e : c ≡ b'/' = ground arith in
          rw y
            (record { pre = []; post = s; at = omega arith; whole = ap (λ d. d ∷ s) e; clean = h })
      | inr n ↦ rw n (ground arith)
    ]

take-append : (xs ys : List ℕ) → take (length xs) (xs ++ ys) ≡ xs
take-append [] ys = refl
take-append (x ∷ xs) ys = ap (λ r. x ∷ r) (take-append xs ys)

drop-append : (xs : List ℕ) (y : ℕ) (ys : List ℕ) → drop (suc (length xs)) (xs ++ (y ∷ ys)) ≡ ys
drop-append [] y ys = refl
drop-append (x ∷ xs) y ys = drop-append xs y ys

-- Cutting at a slash that is known.
split_at-IsSplit :
    (pre post : List ℕ)
    → has_slash post ≡ false
    → IsSplit (pre ++ (b'/' ∷ post)) (split_at (some (length pre)) (pre ++ (b'/' ∷ post)))
unfolding split_at
split_at-IsSplit [] post h = in_root h
split_at-IsSplit (c ∷ dir) post h =
    rw (take-append dir (b'/' ∷ post), drop-append (c ∷ dir) b'/' post) (nested h)

-- `split_path` gives "." and the path itself where the path has no slash, "/" and the rest where
-- its only slash is the first character, and else what is before and after the last slash. The
-- base never has a slash.
pub split_path-IsSplit : (path : List ℕ) → IsSplit path (split_path path)
unfolding split_path LastAt split_at
split_path-IsSplit path = go (last_slash 0 path) (last_slash-LastAt 0 path)
  where
    go : (o : Option ℕ) → LastAt 0 path o → IsSplit path (split_at o path)
    go none h = relative h
    go (some k) h =
        let at : length h.pre ≡ k = let e = h.at in omega arith in
        subst (λ p. IsSplit p (split_at (some k) p)) (sym h.whole)
          (subst
            (λ n. IsSplit (h.pre ++ (b'/' ∷ h.post)) (split_at (some n) (h.pre ++ (b'/' ∷ h.post))))
            at (split_at-IsSplit h.pre h.post h.clean))
