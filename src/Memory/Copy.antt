-- ===== src/Memory/Copy.antt =====
-- What `memcpy` puts where.
use calculatoros.Prelude.{ℕ, ◌+◌, ◌-◌, ◌<◌, ◌≤◌, ◌≡◌, ◌⊎◌, ap, arith}
use calculatoros.Memory.{Mem, memcpy}

pub memcpy_inside :
    (m : Mem) (d : ℕ) (src : Mem) (n k : ℕ) → k < n → memcpy m d src n (d + k) ≡ src k
memcpy_inside m d src n k h = let e : d + k - d ≡ k = omega arith in ground (arith, ap src e)

pub memcpy_outside :
    (m : Mem) (d : ℕ) (src : Mem) (n a : ℕ) → (a < d) ⊎ (d + n ≤ a) → memcpy m d src n a ≡ m a
memcpy_outside m d src n a h = ground arith
