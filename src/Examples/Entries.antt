-- ===== src/Examples/Entries.antt =====
-- A sector of a directory with the files DISKC.DAT, deleted, DISKC.DAT and DISKB.DAT.
use lptstore.Prelude.{
  ℕ, zero, suc, ◌+◌, true, List, [], ◌∷◌, ◌++◌, Bool, not, ◌&&◌, ◌||◌, ◌==◌, replicate, set, get_or,
}
use lptstore.Fat32.{Disks, no_disks}
use lptstore.Fat32.Listing.{is_disk_entry}

-- "DISKn   DAT", an archive of 2048 bytes.
abbrev entry : ℕ → ℕ → ℕ → List ℕ
entry start letter cluster =
    start
      ∷ 0x49
      ∷ 0x53
      ∷ 0x4b
      ∷ letter
      ∷ 0x20
      ∷ 0x20
      ∷ 0x20
      ∷ 0x44
      ∷ 0x41
      ∷ 0x54
      ∷ 0x20
      ∷ replicate 14 0
    ++ (cluster ∷ 0 ∷ 0 ∷ 8 ∷ 0 ∷ 0 ∷ [])

abbrev sector : List ℕ
sector = entry 0xe5 0x43 9 ++ (entry 0x44 0x43 4 ++ (entry 0x44 0x42 7 ++ replicate 416 0))

abbrev others : ℕ → ℕ → List ℕ → ℕ → Bool
others n zero buff i = true
others n (suc m) buff i =
    (not (is_disk_entry buff i) || not (get_or buff (i + 4) 0 == 0x41 + n))
    && others n m buff (i + 32)

abbrev found : Disks
found = record no_disks {
  disk_lba = set (set (replicate 16 0) 2 236) 1 242;
  disk_blocks = set (set (replicate 16 0) 2 4) 1 4;
  disk_cluster = set (set (replicate 16 0) 2 4) 1 7;
}
