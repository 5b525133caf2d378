-- ===== src/Fs/Lookup/Child.antt =====
-- What the search among the children of a directory finds.
use calculatoros.Prelude.{
  ℕ, zero, suc, ◌≡◌, inl, inr, refl, true, Option, none, some, List, [], ◌∷◌, get_elem?, Bool-cases,
}
use calculatoros.Fs.Layout.{inode_at}
use calculatoros.Fs.Device.{Device}
use calculatoros.Fs.State.{Fs}
use calculatoros.Fs.Inode.{load_inode}
use calculatoros.Fs.Lookup.{same_string, find_child}

module _ {D : Type 0} (dev : Device D) where
  -- The result of a search for a name among the inodes `cs`: one of them, whose name in the cache is
  -- the one looked for when it is found.
  pub record IsChild (name : List ℕ) (cs : List ℕ) (c : ℕ) (fs : Fs D) : Type 0 where
    pub at : ℕ
    pub listed : get_elem? cs at ≡ some c
    pub named : same_string fs.mem (inode_at c) name ≡ true

  abbrev pub Searched : List ℕ → List ℕ → Option ℕ × Fs D → Type 0
  Searched name cs (none, fs) = Unit
  Searched name cs (some c, fs) = IsChild name cs c fs

  further :
      (name : List ℕ) (c : ℕ) (cs : List ℕ) (o : Option ℕ × Fs D)
      → Searched name cs o
      → Searched name (c ∷ cs) o
  further name c cs (none, fs) h = tt
  further name c cs (some d, fs) h = record { at = suc h.at; listed = h.listed; named = h.named }

  -- A child that is found is one of those searched, and has the name.
  pub find_child-Searched :
      (name cs : List ℕ) (fs : Fs D) → Searched name cs (find_child dev name cs fs)
  unfolding find_child
  find_child-Searched name [] fs = tt
  find_child-Searched name (c ∷ cs) fs =
      let fs' = load_inode dev c fs in
      elim (Bool-cases (same_string fs'.mem (inode_at c) name)) [
        | inl y ↦ rw y (record { at = zero; listed = refl; named = y })
        | inr n ↦
            rw n (further name c cs (find_child dev name cs fs') (find_child-Searched name cs fs'))
      ]
