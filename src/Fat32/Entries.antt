-- ===== src/Fat32/Entries.antt =====
-- process_dir_sector of fs/fat32.c: the entry from which a disk has its place.
use lptstore.Prelude.{
  ℕ, zero, suc, ◌+◌, ◌-◌, ◌/◌, ◌^◌, ◌≡◌, ◌≢◌, ◌⊎◌, List, Option, none, some, true, false, ◌==◌,
  get_or, set, length,
}
use lptstore.Fat32.{Fat32, Disks, nr_disks, get_lba, le32, entry_cluster}
use lptstore.Fat32.Listing.{is_disk_entry}

-- The three arrays have 16 elements.
abbrev pub Has16 : Disks → Type 0
Has16 d =
    (length d.disk_lba ≡ nr_disks)
    × (length d.disk_blocks ≡ nr_disks)
    × (length d.disk_cluster ≡ nr_disks)

abbrev Sat : (Disks → Type 0) → Option Disks → Type 0
Sat P none = Unit
Sat P (some d) = P d

module _ (f : Fat32) (buff : List ℕ) (n : ℕ) where
  -- The disk has the place, the size in sectors and the first cluster that the entry at `i` gives.
  abbrev pub IsPlaced : ℕ → Disks → Type 0
  IsPlaced i d =
      (get_or d.disk_lba n 0 ≡ get_lba f (entry_cluster buff i))
      × (get_or d.disk_blocks n 0 ≡ le32 buff (i + 28) / 2 ^ 9)
      × (get_or d.disk_cluster n 0 ≡ entry_cluster buff i)

  -- The entry at `i` is none of a disk, or of another one.
  abbrev pub IsOther : ℕ → Type 0
  IsOther i = is_disk_entry buff i ≡ true → get_or buff (i + 4) 0 ≢ 0x41 + n

  abbrev pub AreOther : ℕ → ℕ → Type 0
  AreOther zero i = Unit
  AreOther (suc m) i = IsOther i × AreOther m (i + 32)

  -- The entry at `i` is in use, no long name and the disk's.
  abbrev pub IsEntry : ℕ → Type 0
  IsEntry i =
      ((get_or buff i 0 == 0xe5) ≡ false)
      × ((get_or buff (i + 11) 0 == 0x0f) ≡ false)
      × (is_disk_entry buff i ≡ true)
      × (get_or buff (i + 4) 0 ≡ 0x41 + n)

  -- Of the `m` entries from `i` on the one at `k` is the last of the disk, and none up to it ends the
  -- directory.
  abbrev pub IsLast : ℕ → ℕ → ℕ → Type 0
  IsLast k zero i = ⊥
  IsLast k (suc m) i =
      ((get_or buff i 0 == 0x00) ≡ false)
      × (((k ≡ i) × IsEntry i × AreOther m (i + 32)) ⊎ IsLast k m (i + 32))

  placed : ℕ → Disks → Disks
  placed i d =
      let m = get_or buff (i + 4) 0 - 0x41 in
      record d {
        disk_lba = set d.disk_lba m (get_lba f (entry_cluster buff i));
        disk_blocks = set d.disk_blocks m (le32 buff (i + 28) / 2 ^ 9);
        disk_cluster = set d.disk_cluster m (entry_cluster buff i);
      }
