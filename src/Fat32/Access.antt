-- ===== src/Fat32/Access.antt =====
-- fs/fat32.c: the place of a disk's sector on the medium, and the number one behind the arrays.
use lptstore.Prelude.{
  ℕ, zero, suc, ◌+◌, ◌^◌, ◌≤◌, ◌<◌, ◌≡◌, refl, true, false, List, [], ◌∷◌, none, some, leb, ◌==◌,
  get_or, get_elem?, length, arith,
}
use lptstore.Fat32.{Medium, Disks, nr_disks, cfg_disk}
use lptstore.Fat32.Volume.{
  outside, at, place, disk_place, get_disk_blocks, read_disk_sector, write_disk_sector,
}

-- The arrays have 16 elements, the extents lie on the medium below 2^32.
pub record IsSound (d : Disks) : Type 0 where
  pub lbas : length d.disk_lba ≡ nr_disks
  pub blocks : length d.disk_blocks ≡ nr_disks
  pub fits : (i : ℕ) → get_or d.disk_lba i 0 + get_or d.disk_blocks i 0 < 2 ^ 32

get_elem?-within : (xs : List ℕ) (i : ℕ) → i < length xs → get_elem? xs i ≡ some (get_or xs i 0)
get_elem?-within [] i h = absurd (omega arith)
get_elem?-within (x ∷ xs) zero h = refl
get_elem?-within (x ∷ xs) (suc i) h = get_elem?-within xs i (omega arith)

get_elem?-beyond : (xs : List ℕ) (i : ℕ) → length xs ≤ i → get_elem? xs i ≡ none
get_elem?-beyond [] i h = refl
get_elem?-beyond (x ∷ xs) zero h = absurd (omega arith)
get_elem?-beyond (x ∷ xs) (suc i) h = get_elem?-beyond xs i (omega arith)

module _ (disk sector : ℕ) (d : Disks) (h : disk < nr_disks)
    (lbas : length d.disk_lba ≡ nr_disks) where
  not_config : (disk == cfg_disk) ≡ false
  not_config = ground arith

  is_disk : leb disk nr_disks ≡ true
  is_disk = ground arith

  lba_there : get_elem? d.disk_lba disk ≡ some (get_or d.disk_lba disk 0)
  lba_there = get_elem?-within d.disk_lba disk (omega (arith, lbas))

  place-in :
      0 < get_or d.disk_lba disk 0
      → sector < get_or d.disk_blocks disk 0
      → get_or d.disk_lba disk 0 + sector < 2 ^ 32
      → place disk sector d ≡ at (get_or d.disk_lba disk 0 + sector)
  unfolding place disk_place
  place-in active within low = rw (not_config, is_disk, lba_there, disk_place) (ground arith)

module _ (M : Medium) (disk sector : ℕ) (buff : List ℕ) (d : Disks) (s : M.State) where
  pub read_disk_sector-place :
      disk < nr_disks
      → length d.disk_lba ≡ nr_disks
      → 0 < get_or d.disk_lba disk 0
      → sector < get_or d.disk_blocks disk 0
      → get_or d.disk_lba disk 0 + sector < 2 ^ 32
      → read_disk_sector M disk sector buff d s
        ≡ some (M.read_sector (get_or d.disk_lba disk 0 + sector) buff s)
  unfolding read_disk_sector
  read_disk_sector-place h lbas active within low =
      rw (place-in disk sector d h lbas active within low, read_disk_sector)

  pub write_disk_sector-place :
      disk < nr_disks
      → length d.disk_lba ≡ nr_disks
      → 0 < get_or d.disk_lba disk 0
      → sector < get_or d.disk_blocks disk 0
      → get_or d.disk_lba disk 0 + sector < 2 ^ 32
      → write_disk_sector M disk sector buff d s
        ≡ some (M.write_sector (get_or d.disk_lba disk 0 + sector) buff s)
  unfolding write_disk_sector
  write_disk_sector-place h lbas active within low =
      rw (place-in disk sector d h lbas active within low, write_disk_sector)

-- Disk number 16, one behind the last, passes the test `disk <= NR_DISKS`: every request for it
-- reads behind the end of the array.
pub disk_16-outside :
    (M : Medium) (sector : ℕ) (buff : List ℕ) (d : Disks) (s : M.State)
    → IsSound d
    → (get_disk_blocks nr_disks d ≡ none)
      × (read_disk_sector M nr_disks sector buff d s ≡ none)
      × (write_disk_sector M nr_disks sector buff d s ≡ none)
unfolding get_disk_blocks read_disk_sector write_disk_sector
disk_16-outside M sector buff d s sound =
    (rw (beyond, get_disk_blocks), rw (away, read_disk_sector), rw (away, write_disk_sector))
  where
    beyond : get_elem? d.disk_lba nr_disks ≡ none
    beyond = get_elem?-beyond d.disk_lba nr_disks (omega (arith, sound.lbas))

    away : place nr_disks sector d ≡ outside
    away = unfold place disk_place in rw (beyond, disk_place)
