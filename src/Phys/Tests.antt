-- ===== src/Phys/Tests.antt =====
-- Runs of the page allocator.
use calculatoros.Prelude.{◌≡◌, refl, true, arith, ltb, if◌then◌else◌}
use calculatoros.Prelude.Int.{pos}
use calculatoros.Memory.{Mem}
use calculatoros.Bitmap
use calculatoros.Bitmap.Laws.{AreBytes}
use calculatoros.Phys.{phys_test, alloc_phys, free_phys}
use calculatoros.Phys.Alloc.{FirstFit, alloc_phys-FirstFit, free_phys-alloc_phys}

-- Pages 0 to 3 and 6 are taken: the bytes 0x4f, 0, 0, ….
abbrev sample : Mem
sample = λ a. if ltb a 1 then 0x4f else 0

sample-AreBytes : AreBytes sample
sample-AreBytes a = ground arith

page_zero_taken : phys_test 0 sample ≡ true
unfolding phys_test Bitmap.test Bitmap.test_bit
page_zero_taken = refl

alloc_phys-FirstFit_example : FirstFit sample 3 (alloc_phys (pos 3) sample)
alloc_phys-FirstFit_example =
    alloc_phys-FirstFit 3 sample sample-AreBytes page_zero_taken (omega arith)

free_phys-alloc_phys_example :
    let (a, m') = alloc_phys (pos 3) sample in
    phys_test 7 (free_phys a (pos 3) m') ≡ phys_test 7 sample
free_phys-alloc_phys_example =
    free_phys-alloc_phys 3 sample 7 sample-AreBytes page_zero_taken (omega arith)
