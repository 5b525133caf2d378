-- ===== src/Fs/Lookup/Tests.antt =====
-- Runs of the search for inodes.
use calculatoros.Prelude.{◌≡◌, refl, [], ◌∷◌}
use calculatoros.CString.{ascii}
use calculatoros.Fs.Lookup.{segments}

segments_run : segments (ascii "usr//bin/") ≡ ascii "usr" ∷ [] ∷ ascii "bin" ∷ [] ∷ []
unfolding segments
segments_run = refl

one_segment : segments (ascii "bin") ≡ ascii "bin" ∷ []
unfolding segments
one_segment = refl
