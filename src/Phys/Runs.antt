-- ===== src/Phys/Runs.antt =====
-- Runs of pages: what setting and clearing them does to every page.
use calculatoros.Prelude.{
  ℕ, zero, suc, ◌+◌, ◌<◌, ◌≡◌, Bool, false, not, ◌&&◌, ◌||◌, arith, ltb, leb, ◌∙◌, if◌then◌else◌,
}
use calculatoros.Memory.{Mem}
use calculatoros.Bitmap
use calculatoros.Bitmap.Laws.{
  AreBytes, test-set, test-clear, set-AreBytes, clear-AreBytes, test-zero,
}
use calculatoros.Phys.{
  phys_set, phys_clear, phys_test, set_pages, clear_pages, init_phys, max_pages, bitmap_bytes,
  kernel_pages,
}

-- Whether page `p` is one of the `n` pages from `s` on.
abbrev pub in_run : ℕ → ℕ → ℕ → Bool
in_run s n p = leb s p && ltb p (s + n)

pub test-set_pages :
    (n s p : ℕ) (m : Mem)
    → AreBytes m
    → phys_test p (set_pages n s m) ≡ (in_run s n p || phys_test p m)
unfolding set_pages phys_set phys_test
test-set_pages zero s p m b = ground arith
test-set_pages (suc n) s p m b = ground (
  arith,
  test-set_pages n (s + 1) p (Bitmap.set 0 m s) (set-AreBytes 0 m s b),
  test-set 0 m s p (b _),
)

pub test-clear_pages :
    (n s p : ℕ) (m : Mem)
    → AreBytes m
    → phys_test p (clear_pages n s m) ≡ (not (in_run s n p) && phys_test p m)
unfolding clear_pages phys_clear phys_test
test-clear_pages zero s p m b = ground arith
test-clear_pages (suc n) s p m b = ground (
  arith,
  test-clear_pages n (s + 1) p (Bitmap.clear 0 m s) (clear-AreBytes 0 m s b),
  test-clear 0 m s p (b _),
)

pub set_pages-AreBytes : (n s : ℕ) (m : Mem) → AreBytes m → AreBytes (set_pages n s m)
unfolding set_pages phys_set
set_pages-AreBytes zero s m b = b
set_pages-AreBytes (suc n) s m b =
    set_pages-AreBytes n (s + 1) (Bitmap.set 0 m s) (set-AreBytes 0 m s b)

-- After `init_phys` exactly the 1024 pages of the kernel are taken.
pub phys_test-init_phys :
    (m : Mem) (p : ℕ) → AreBytes m → p < max_pages → phys_test p (init_phys m) ≡ ltb p kernel_pages
unfolding init_phys
phys_test-init_phys m p b h =
    let z : Mem = λ a. if ltb a bitmap_bytes then 0 else m a in
    test-set_pages kernel_pages 0 p z (λ a. ground (arith, b a)) ∙ ground (arith, zero_page)
  where
    zero_page : phys_test p (λ a. if ltb a bitmap_bytes then 0 else m a) ≡ false
    zero_page = unfold phys_test in test-zero 0 _ p (ground arith)
