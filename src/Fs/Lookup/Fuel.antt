-- ===== src/Fs/Lookup/Fuel.antt =====
-- The fuel of `find_inode`.
use calculatoros.Prelude.{
  ℕ, zero, suc, ◌+◌, ◌≡◌, ◌≢◌, inl, inr, refl, ap, sym, ◌∙◌, Bool, true, false, ◌&&◌, Option, none,
  some, List, [], ◌∷◌, ◌==◌, if◌then◌else◌, arith, Bool-cases, subst,
}
use calculatoros.CString.{ascii, head, tail, streq}
use calculatoros.Memory.Words.{load32}
use calculatoros.Fs.Layout.{
  type_dir, type_symlink, type_of, parent_of, symlink_target_of, current_dir_at,
}
use calculatoros.Fs.Device.{Device}
use calculatoros.Fs.State.{Fs}
use calculatoros.Fs.Inode.{load_inode}
use calculatoros.Fs.Lookup.{
  Lookup, found, missing, out_of_fuel, string_at, segments, has_next, at_end, child_of, enter,
  descend, walk, find_inode,
}

module _ {D : Type 0} (dev : Device D) where
  -- The first result ran out of fuel, or the second one is the same.
  data Agree (r r' : Lookup × Fs D) : Type 0 where
    ran_out : r.0 ≡ out_of_fuel → Agree r r'
    same : r' ≡ r → Agree r r'

  enter-Agree :
      (go go' : ℕ → Fs D → Lookup × Fs D) (r r' : Lookup × Fs D)
      → ((c : ℕ) (fs : Fs D) → Agree (go c fs) (go' c fs))
      → Agree r r'
      → Agree (enter dev go r) (enter dev go' r')
  unfolding enter
  enter-Agree go go' (missing, fs) r' h (ran_out e) = absurd (ground arith)
  enter-Agree go go' (missing, fs) r' h (same e) = same (ap (enter dev go') e)
  enter-Agree go go' (out_of_fuel, fs) r' h e = ran_out refl
  enter-Agree go go' (found c, fs) r' h (ran_out e) = absurd (ground arith)
  enter-Agree go go' (found c, fs) r' h (same e) =
      let fs' = load_inode dev c fs in
      elim (Bool-cases (load32 fs'.mem (type_of c) == type_dir)) [
        | inl y ↦ elim (h c fs') [
          | ran_out o ↦ ran_out (rw y o)
          | same s ↦ same (ap (enter dev go') e ∙ rw y s)
        ]
        | inr n ↦ same (ap (enter dev go') e ∙ rw n refl)
      ]

  -- Two branches of a test agree if each does.
  if-Agree :
      (b : Bool) {x x' y y' : Lookup × Fs D}
      → Agree x x'
      → Agree y y'
      → Agree (if b then x else y) (if b then x' else y')
  if-Agree true h k = h
  if-Agree false h k = k

  descend-Agree :
      (resolve resolve' : List ℕ → Fs D → Lookup × Fs D) (go go' : ℕ → Fs D → Lookup × Fs D)
      (next : Bool) (o : Option ℕ × Fs D)
      → ((p : List ℕ) (fs : Fs D) → Agree (resolve p fs) (resolve' p fs))
      → ((c : ℕ) (fs : Fs D) → Agree (go c fs) (go' c fs))
      → Agree (descend dev resolve go next o) (descend dev resolve' go' next o)
  unfolding descend
  descend-Agree resolve resolve' go go' next (none, fs) h k = same refl
  descend-Agree resolve resolve' go go' next (some c, fs) h k =
      let target = string_at fs.mem (symlink_target_of c) 256 in
      if-Agree (next && load32 fs.mem (type_of c) == type_symlink)
        (enter-Agree go go' (resolve target fs) (resolve' target fs) k (h target fs)) (k c fs)

  walk-Agree :
      (resolve resolve' : List ℕ → Fs D → Lookup × Fs D) (ts : List (List ℕ)) (cur : ℕ) (fs : Fs D)
      → ((p : List ℕ) (fs : Fs D) → Agree (resolve p fs) (resolve' p fs))
      → Agree (walk dev resolve ts cur fs) (walk dev resolve' ts cur fs)
  unfolding walk
  walk-Agree resolve resolve' [] cur fs h = same refl
  walk-Agree resolve resolve' (t ∷ ts) cur fs h =
      let ih : (c : ℕ) (fs : Fs D) → Agree (walk dev resolve ts c fs) (walk dev resolve' ts c fs) =
        λ c fs. walk-Agree resolve resolve' ts c fs h in
      if-Agree (at_end t ts) (same refl) (
        if-Agree (streq t (ascii ".")) (ih cur fs) (
          if-Agree (streq t (ascii ".."))
            (ih (load32 (load_inode dev cur fs).mem (parent_of cur)) (load_inode dev cur fs))
            (descend-Agree resolve resolve' (walk dev resolve ts) (walk dev resolve' ts)
              (has_next ts) (child_of dev t cur fs) h ih)))

  -- One more unit of fuel changes no result but that there is not enough.
  find_inode-Agree :
      (fuel : ℕ) (path : List ℕ) (fs : Fs D)
      → Agree (find_inode dev fuel path fs) (find_inode dev (suc fuel) path fs)
  unfolding find_inode
  find_inode-Agree zero path fs = ran_out refl
  find_inode-Agree (suc fuel) path fs =
      let current = load32 fs.mem current_dir_at in
      let resolve = find_inode dev fuel in
      let resolve' = find_inode dev (suc fuel) in
      if-Agree (head path == 0) (same refl) (
        if-Agree (head path == b'/')
          (walk-Agree resolve resolve' (segments (tail path)) 0 fs (find_inode-Agree fuel))
          (walk-Agree resolve resolve' (segments path) current fs (find_inode-Agree fuel)))

  -- With enough fuel, more of it changes nothing: where `find_inode` finds an inode or reports that
  -- there is none, it does so for every larger bound on the links that it follows, and leaves the
  -- same state.
  pub find_inode_add :
      (fuel more : ℕ) (path : List ℕ) (fs : Fs D)
      → (find_inode dev fuel path fs).0 ≢ out_of_fuel
      → find_inode dev (more + fuel) path fs ≡ find_inode dev fuel path fs
  find_inode_add fuel zero path fs h =
      let e : 0 + fuel ≡ fuel = omega arith in ap (λ n. find_inode dev n path fs) e
  find_inode_add fuel (suc more) path fs h =
      let ih = find_inode_add fuel more path fs h in
      elim (find_inode-Agree (more + fuel) path fs) [
        | ran_out o ↦ absurd (h (sym (ap (λ r. r.0) ih) ∙ o))
        | same s ↦
            let e : suc more + fuel ≡ suc (more + fuel) = omega arith in
            ap (λ n. find_inode dev n path fs) e ∙ s ∙ ih
      ]

  if-done :
      (b : Bool) (x y : Lookup × Fs D)
      → x.0 ≢ out_of_fuel
      → y.0 ≢ out_of_fuel
      → (if b then x else y).0 ≢ out_of_fuel
  if-done true x y h k = h
  if-done false x y h k = k

  descend-done :
      (resolve : List ℕ → Fs D → Lookup × Fs D) (o : Option ℕ × Fs D)
      → (descend dev resolve (λ c fs. (found c, fs)) false o).0 ≢ out_of_fuel
  unfolding descend
  descend-done resolve (none, fs) e = ground arith
  descend-done resolve (some c, fs) e = ground arith

  walk-done :
      (resolve : List ℕ → Fs D → Lookup × Fs D) (t : List ℕ) (cur : ℕ) (fs : Fs D)
      → (walk dev resolve (t ∷ []) cur fs).0 ≢ out_of_fuel
  unfolding walk
  walk-done resolve t cur fs =
      if-done (at_end t []) _ _ (λ e. ground arith)
        (if-done (streq t (ascii ".")) _ _ (λ e. ground arith)
          (if-done (streq t (ascii "..")) _ _ (λ e. ground arith)
            (descend-done resolve (child_of dev t cur fs))))

  -- The last segment of a path is never followed: a path of one segment, after a slash or not,
  -- needs no more than one unit of fuel, whatever it names.
  pub find_inode_one :
      (fuel : ℕ) (path t : List ℕ) (fs : Fs D)
      → segments (if head path == b'/' then tail path else path) ≡ t ∷ []
      → (find_inode dev (suc fuel) path fs).0 ≢ out_of_fuel
  unfolding find_inode
  find_inode_one fuel path t fs h =
      let current = load32 fs.mem current_dir_at in
      let resolve = find_inode dev fuel in
      if-done (head path == 0) _ _ (λ e. ground arith)
        (elim (Bool-cases (head path == b'/')) [
          | inl y ↦
              let s : segments (tail path) ≡ t ∷ [] =
                subst (λ b. segments (if b then tail path else path) ≡ t ∷ []) y h in
              rw y (
                subst (λ ts. (walk dev resolve ts 0 fs).0 ≢ out_of_fuel) (sym s)
                  (walk-done resolve t 0 fs))
          | inr n ↦
              let s : segments path ≡ t ∷ [] =
                subst (λ b. segments (if b then tail path else path) ≡ t ∷ []) n h in
              rw n (
                subst (λ ts. (walk dev resolve ts current fs).0 ≢ out_of_fuel) (sym s)
                  (walk-done resolve t current fs))
        ])
