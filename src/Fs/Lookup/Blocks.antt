-- ===== src/Fs/Lookup/Blocks.antt =====
-- What the loop over the block numbers of an inode leaves in memory.
use calculatoros.Prelude.{ℕ, zero, suc, ◌+◌, ◌≤◌, ◌≡◌, ◌∙◌, refl, inl, arith}
use calculatoros.Memory.{Mem}
use calculatoros.Memory.Words.{load32, store32, load32-store32_ne}
use calculatoros.Fs.Layout.{minus_one, block_of}
use calculatoros.Fs.Lookup.{no_blocks}

-- The words in front of the block numbers stay.
pub load32-no_blocks :
    (id left i : ℕ) (m : Mem) (a : ℕ)
    → a + 4 ≤ block_of id i
    → load32 (no_blocks id left i m) a ≡ load32 m a
unfolding no_blocks
load32-no_blocks id zero i m a h = refl
load32-no_blocks id (suc left) i m a h =
    load32-no_blocks id left (i + 1) (store32 m (block_of id i) minus_one) a (omega arith)
    ∙ load32-store32_ne m (block_of id i) minus_one a (inl h)
