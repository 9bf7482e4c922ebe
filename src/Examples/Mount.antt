-- ===== src/Examples/Mount.antt =====
-- A stick with the file DISKC.DAT of two clusters in its root directory; the file begins with a boot
-- sector.
use lptstore.Prelude.{
  ℕ, ◌+◌, ◌≡◌, zero, suc, inl, refl, List, [], ◌∷◌, ◌++◌, replicate, set, arith, some, get_or,
  length, ◌==◌, ltb, leb, true, false, Bool, not, ◌&&◌, ◌||◌, sym, subst, ◌∙◌, if◌then◌else◌,
}
use lptstore.Fat32.{
  Medium, Fat32, Disks, nr_disks, no_disks, ended, get_lba, in_chain, bytes_at, note_disk,
  note_config, note_entry, process_entries, process_dir_sector, fat_miss, cluster_gap,
  get_next_cluster, gap_loop, file_has_gaps,
}
use lptstore.Fat32.Volume.{
  read_fs_id, read_cluster, read_file, check_disk, check_disks, check_config, init_disk,
}
use lptstore.Fat32.Cache.{Holds, fat_entry}
use lptstore.Fat32.Chains.{nth}
use lptstore.Fat32.Places.{IsSized}
use lptstore.Fat32.Verdicts.{IsVolume, InChain-first}
use lptstore.Fat32.Directory.{SectorsName, DirectoryNames}
use lptstore.Fat32.Listing.{IsListed, Names, is_disk_entry}
use lptstore.Examples.Requests.{boot}
use lptstore.Examples.Volume.{any-Within}
use lptstore.Fat32.Drives.{drives}
use lptstore.Fat32.Mount.{volume_of, IsMounted, KeepsListed, init_disk-mounts}

-- Two sectors in a cluster, 32 before the tables, 100 in each, the root directory in cluster 2.
abbrev boot_sector : List ℕ
boot_sector =
    replicate 13 0
    ++ (2 ∷ 32 ∷ 0 ∷ replicate 20 0
        ++ (100 ∷ 0 ∷ 0 ∷ 0 ∷ replicate 4 0
            ++ (2 ∷ 0 ∷ 0 ∷ 0 ∷ replicate 462 0 ++ (0x55 ∷ 0xaa ∷ []))))

abbrev chain_end : List ℕ
chain_end = 0xff ∷ 0xff ∷ 0xff ∷ 0x0f ∷ []

-- Cluster 2 is the last of its chain, 4 goes on at 5.
abbrev table : List ℕ
table =
    replicate 8 0
    ++ (chain_end ++ (replicate 4 0 ++ ((5 ∷ 0 ∷ 0 ∷ 0 ∷ []) ++ (chain_end ++ replicate 488 0))))

-- "DISKC   DAT", an archive, from cluster 4 on, 2048 bytes.
abbrev directory : List ℕ
directory =
    0x44
      ∷ 0x49
      ∷ 0x53
      ∷ 0x4b
      ∷ 0x43
      ∷ 0x20
      ∷ 0x20
      ∷ 0x20
      ∷ 0x44
      ∷ 0x41
      ∷ 0x54
      ∷ 0x20
      ∷ replicate 14 0
    ++ (4 ∷ 0 ∷ 0 ∷ 8 ∷ replicate 482 0)

abbrev pub content : ℕ → List ℕ
content lba =
    if lba == 0
    then boot_sector
    else (if ltb lba 232
        then table
        else (if lba == 232 then directory else (if lba == 236 then boot else replicate 512 0)))

abbrev medium : Medium
medium = record {
  State = ℕ;
  read_sector = λ lba buff s. (0, content lba, s);
  write_sector = λ lba buff s. (0, s);
}

abbrev pub Any : ℕ → Type 0
Any s = Unit

pub medium-Holds : Holds medium content Any
medium-Holds = record { reads = λ lba buff s small good. (0, s, refl, tt) }

abbrev pub stack : Fat32
stack = record {
  sectors_per_cluster = 0;
  reserved_sector_count = 0;
  sectors_per_fat = 0;
  root_directory_first_cluster = 0;
  fat_offset = 0xffff_ffff;
  fat_rec = replicate 512 0;
}

mounted :
    (h : Disks) × (init_disk medium 5 (replicate 512 0) stack no_disks 0 ≡ ended (some (0, h, 0)))
    × (h ≡ record no_disks {
      disk_bitmap = 4;
      disk_lba = set (replicate 16 0) 2 236;
      disk_blocks = set (replicate 16 0) 2 4;
      disk_cluster = set (replicate 16 0) 2 4;
    })
unfolding init_disk read_fs_id read_file read_cluster check_disk check_disks check_config
    process_dir_sector process_entries note_entry note_disk note_config bytes_at get_lba
    get_next_cluster fat_miss file_has_gaps gap_loop cluster_gap
mounted = (_, refl, refl)

-- Every number that can be in a chain is one of the volume's.
abbrev volume_size : IsSized (volume_of content stack)
volume_size = record {
  clusters = 0x0fff_fff0;
  few = omega arith;
  filled = omega arith;
  behind = omega arith;
  fits = omega arith;
}

abbrev pub whole_volume : IsVolume content (volume_of content stack)
whole_volume = record { size = volume_size; stays = λ c small inside. any-Within _ }

-- The entries for disks have their letters.
abbrev lettered : ℕ → List ℕ → ℕ → Bool
lettered zero buff i = true
lettered (suc n) buff i =
    (not (is_disk_entry buff i)
      || (leb 0x41 (get_or buff (i + 4) 0) && ltb (get_or buff (i + 4) 0) 0x51))
    && lettered n buff (i + 32)

lettered-Names :
    (n : ℕ) (buff : List ℕ) (i : ℕ) → lettered n buff i ≡ true → Names 0x0fff_fff0 n buff i
lettered-Names zero buff i e = tt
lettered-Names (suc n) buff i e = (
  λ is. (any-Within _, ground (arith, e)),
  λ is. any-Within _,
  lettered-Names n buff (i + 32) (ground (arith, e)),
)

pub zero_at : (n i : ℕ) → ◌≡◌ {A = ℕ} (get_or (replicate n 0) i 0) 0
zero_at zero i = refl
zero_at (suc n) zero = refl
zero_at (suc n) (suc i) = zero_at n i

pub no_disks-IsListed : IsListed 0x0fff_fff0 0 (volume_of content stack) no_disks
no_disks-IsListed = record {
  lbas = refl;
  starts = refl;
  listed = λ i. inl (zero_at 16 i);
  below = λ i. any-Within _;
  config_below = any-Within 0;
  bitmap = refl;
}

pub over : in_chain (nth medium-Holds (volume_of content stack) 1 2) ≡ false
unfolding fat_entry
over = refl

sectors_lettered : (lettered 16 (content 232) 0 ≡ true) × (lettered 16 (content 233) 0 ≡ true)
unfolding bytes_at
sectors_lettered = (refl, refl)

root_at : get_lba (volume_of content stack) 2 ≡ 232
unfolding get_lba
root_at = refl

pub directory_names :
    {M : Medium} {Good : M.State → Type 0} (holds : Holds M content Good)
    → DirectoryNames holds (volume_of content stack) whole_volume 2
directory_names holds zero is =
    subst (SectorsName holds (volume_of content stack) whole_volume 2) (sym root_at) (
      lettered-Names 16 (content 232) 0 sectors_lettered.0,
      (lettered-Names 16 (content 233) 0 sectors_lettered.1, tt),
    )
directory_names holds (suc k) (is, rest) =
    let more =
      InChain-first holds (volume_of content stack) whole_volume k
        (fat_entry content (volume_of content stack) 2) rest in
    let clash : true ≡ false = sym more ∙ over in absurd (ground arith)

init_disk-mounts_example :
    (d' : Disks) × (t : ℕ) × (init_disk medium 0x0fff_fff1 (replicate 512 0) stack no_disks 0
      ≡ ended (some (0, d', t)))
    × (length d'.disk_lba ≡ nr_disks)
    × IsMounted medium-Holds stack whole_volume d'
    × (d'.disk_bitmap ≡ drives d')
    × KeepsListed medium-Holds stack whole_volume 0x0fff_fff1 (replicate 512 0) no_disks 0 d'
    × Any t
init_disk-mounts_example =
    init_disk-mounts medium-Holds stack whole_volume 1 0x0fff_fff1 (replicate 512 0) no_disks 0 refl
      refl over (omega arith) (omega arith) (inl refl) no_disks-IsListed (any-Within 2)
      (directory_names medium-Holds) tt
