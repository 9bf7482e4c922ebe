-- ===== src/Examples/File.antt =====
-- A file of five bytes through main of fs/comp.c.
use lptstore.Prelude.{ℕ, ◌≡◌, ◌⊎◌, List, [], ◌∷◌, arith}
use lptstore.Comp.{recode, done, fault}
use lptstore.Comp.RoundTrip.{Overruns, sector_at, recode-same}

abbrev short_file : List ℕ
short_file = 0xeb ∷ 0x00 ∷ 0x00 ∷ 0x90 ∷ 0x00 ∷ []

recode-same_example :
    (recode 1 short_file ≡ done short_file)
    ⊎ ((recode 1 short_file ≡ fault) × ((i : ℕ) × Overruns (sector_at i short_file)))
recode-same_example = recode-same 1 short_file (omega arith)
