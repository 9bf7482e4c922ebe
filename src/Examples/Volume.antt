-- ===== src/Examples/Volume.antt =====
-- A volume with one file of two clusters, and the disks of a stick.
use lptstore.Prelude.{
  ℕ, ◌≡◌, ◌⊎◌, ◌≤◌, ◌*◌, ◌+◌, ◌-◌, zero, suc, ◌≢◌, inl, refl, List, [], ◌∷◌, ◌++◌, replicate, set,
  arith, none, get_or,
}
use lptstore.Fat32.{
  Medium, Fat32, Disks, no_disks, ended, u32, get_lba, fat_miss, cluster_gap, get_next_cluster,
  gap_loop, file_has_gaps, nr_disks,
}
use lptstore.Fat32.Volume.{get_disk_blocks, read_disk_sector, write_disk_sector}
use lptstore.Fat32.Access.{IsSound, disk_16-outside}
use lptstore.Fat32.Rounds.{SameVolume}
use lptstore.Fat32.Places.{IsSized}
use lptstore.Fat32.Ends.{file_has_gaps-ends}
use lptstore.Fat32.Verdicts.{Within, IsVolume, InChain}
use lptstore.Fat32.Decides.{file_has_gaps-decides}
use lptstore.Fat32.Cache.{Holds, IsCached, fat_entry, get_next_cluster-entry}
use lptstore.Fat32.Chains.{nth, file_has_gaps-chain}

-- The table's sector: cluster 2 goes on at cluster 3, which is the last.
abbrev fat : List ℕ
fat = replicate 8 0 ++ (3 ∷ 0 ∷ 0 ∷ 0 ∷ 0xff ∷ 0xff ∷ 0xff ∷ 0x0f ∷ []) ++ replicate 496 0

abbrev medium : Medium
medium = record {
  State = ℕ;
  read_sector = λ lba buff s. (0, fat, s);
  write_sector = λ lba buff s. (0, s);
}

-- Every state of the medium is one in which it can be.
abbrev Any : ℕ → Type 0
Any s = Unit

medium-Holds : Holds medium (λ lba. fat) Any
medium-Holds = record { reads = λ lba buff s small good. (0, s, refl, tt) }

abbrev volume : Fat32
volume = record {
  sectors_per_cluster = 2;
  reserved_sector_count = 32;
  sectors_per_fat = 100;
  root_directory_first_cluster = 2;
  fat_offset = 0xffff_ffff;
  fat_rec = replicate 512 0;
}

get_next_cluster-entry_example :
    (g : Fat32) × (s' : ℕ) × (get_next_cluster medium 2 volume 0
      ≡ (fat_entry (λ lba. fat) volume 2, g, s'))
    × IsCached (λ lba. fat) g
    × SameVolume volume g
    × Any s'
get_next_cluster-entry_example =
    get_next_cluster-entry medium-Holds 2 volume 0 (inl refl) tt (omega arith) (omega arith)

walked :
    file_has_gaps medium 5 2 volume 0
    ≡ ended (0, record volume { fat_rec = fat; fat_offset = 0 }, 0)
unfolding file_has_gaps gap_loop cluster_gap get_next_cluster fat_miss get_lba
walked = refl

reached : u32 (get_lba volume 2 + 2 - 1) ≢ 0
unfolding get_lba
reached = omega arith

file_has_gaps-chain_example :
    get_lba volume (nth medium-Holds volume 1 2) ≡ u32 (get_lba volume 2 + 1 * 2)
unfolding fat_entry
file_has_gaps-chain_example =
    file_has_gaps-chain medium-Holds volume 1 5 2 (record volume { fat_rec = fat; fat_offset = 0 })
      0 0 (omega arith) (omega arith) (omega arith) (inl refl) tt walked (refl, reached, refl)

-- Every number that can be in a chain is one of the volume's.
abbrev volume_size : IsSized volume
volume_size = record {
  clusters = 0x0fff_fff0;
  few = omega arith;
  filled = omega arith;
  behind = omega arith;
  fits = omega arith;
}

file_has_gaps-ends_example :
    (r : ℕ × Fat32 × ℕ) × (file_has_gaps medium 0x0fff_fff1 2 volume 0 ≡ ended r)
file_has_gaps-ends_example =
    file_has_gaps-ends volume volume_size refl medium 0x0fff_fff1 2 0 (omega arith)

pub any-Within : (c : ℕ) → Within 0x0fff_fff0 c
any-Within c inside = ground arith

abbrev whole_volume : IsVolume (λ lba. fat) volume
whole_volume = record { size = volume_size; stays = λ c small inside. any-Within _ }

file_has_gaps-decides_example :
    (r : ℕ) × (h : Fat32) × (t : ℕ) × (file_has_gaps medium 0x0fff_fff1 2 volume 0
      ≡ ended (r, h, t))
    × (((r ≡ 0)
          × ((k : ℕ)
              → InChain medium-Holds volume whole_volume k 2
              → nth medium-Holds volume k 2 ≡ k + 2))
        ⊎ ((r ≡ 1)
            × (k : ℕ) × InChain medium-Holds volume whole_volume k 2
            × (nth medium-Holds volume k 2 ≢ k + 2)))
file_has_gaps-decides_example =
    file_has_gaps-decides medium-Holds volume whole_volume 0x0fff_fff1 2 0 (any-Within 2)
      (omega arith) (inl refl) tt

-- Disk C is in the sectors 300 to 399.
abbrev pub disks : Disks
disks = record no_disks {
  disk_lba = set (replicate 16 0) 2 300;
  disk_blocks = set (replicate 16 0) 2 100;
}

entry_le : (n k v i : ℕ) → get_or (set (replicate n 0) k v) i 0 ≤ v
entry_le zero k v i = omega arith
entry_le (suc n) zero v zero = omega arith
entry_le (suc n) zero v (suc i) = rw (zeros n i) (omega arith)
  where
    zeros : (m j : ℕ) → ◌≡◌ {A = ℕ} (get_or (replicate m 0) j 0) 0
    zeros zero j = refl
    zeros (suc m) zero = refl
    zeros (suc m) (suc j) = zeros m j
entry_le (suc n) (suc k) v zero = omega arith
entry_le (suc n) (suc k) v (suc i) = entry_le n k v i

pub disks-IsSound : IsSound disks
disks-IsSound = record {
  lbas = refl;
  blocks = refl;
  fits = λ i. omega (arith, entry_le 16 2 300 i, entry_le 16 2 100 i);
}

disk_16-outside_example :
    (get_disk_blocks nr_disks disks ≡ none)
    × (read_disk_sector medium nr_disks 7 (replicate 512 0) disks 0 ≡ none)
    × (write_disk_sector medium nr_disks 7 (replicate 512 0) disks 0 ≡ none)
disk_16-outside_example = disk_16-outside medium 7 (replicate 512 0) disks 0 disks-IsSound
