-- ===== src/Fat32/Listing.antt =====
-- The entries that process_dir_sector makes: a disk's sector is that of its file's first cluster.
use lptstore.Prelude.{
  ℕ, zero, suc, ◌+◌, ◌-◌, ◌≡◌, ◌≢◌, ◌<◌, ◌≤◌, ◌⊎◌, inl, inr, ◌∙◌, List, Option, none, some, arith,
  Bool, true, Bool-cases, ◌==◌, ltb, leb, ◌&&◌, ◌||◌, get_or, set, length, length-set,
  get_or-set_hit, get_or-set_miss,
}
use lptstore.Fat32.{
  Fat32, Disks, nr_disks, get_lba, bytes_at, name_disk, name_dat, name_config, is_archive,
  entry_cluster, note_disk, note_config, note_entry, process_entries, process_dir_sector,
}
use lptstore.Fat32.Verdicts.{Within}
use lptstore.Fat32.Rounds.{SameVolume, get_lba-same}

-- The tests of process_dir_sector for the entry of a disk and for that of the configuration.
abbrev pub is_disk_entry : List ℕ → ℕ → Bool
is_disk_entry buff i =
    bytes_at buff i name_disk && bytes_at buff (i + 5) name_dat && is_archive buff i

abbrev pub is_config_entry : List ℕ → ℕ → Bool
is_config_entry buff i = bytes_at buff i name_config && is_archive buff i

-- `buff[i+4]` is a letter from A to P, one for each place of the arrays.
abbrev pub HasLetter : List ℕ → ℕ → Type 0
HasLetter buff i = (0x41 ≤ get_or buff (i + 4) 0) × (get_or buff (i + 4) 0 < 0x51)

-- Such an entry of the `n` that begin at `i` names a cluster of the volume, or none, and that of a disk
-- has its letter.
abbrev pub Names : ℕ → ℕ → List ℕ → ℕ → Type 0
Names clusters zero buff i = Unit
Names clusters (suc n) buff i =
    (is_disk_entry buff i ≡ true → Within clusters (entry_cluster buff i) × HasLetter buff i)
    × (is_config_entry buff i ≡ true → Within clusters (entry_cluster buff i))
    × Names clusters n buff (i + 32)

-- The arrays have 16 elements, a disk begins where its first cluster does, and the clusters are those
-- of the volume; `bits` is the bitmap.
pub record IsListed (clusters bits : ℕ) (f : Fat32) (d : Disks) : Type 0 where
  pub lbas : length d.disk_lba ≡ nr_disks
  pub starts : length d.disk_cluster ≡ nr_disks
  pub listed :
      (i : ℕ)
      → (get_or d.disk_lba i 0 ≡ 0)
        ⊎ (get_or d.disk_lba i 0 ≡ get_lba f (get_or d.disk_cluster i 0))
  pub below : (i : ℕ) → Within clusters (get_or d.disk_cluster i 0)
  pub config_below : Within clusters d.cfg_cluster
  pub bitmap : d.disk_bitmap ≡ bits

-- No access outside an array, and the entries that follow.
abbrev pub Lists : ℕ → ℕ → Fat32 → Option Disks → Type 0
Lists clusters bits f none = ⊥
Lists clusters bits f (some d) = IsListed clusters bits f d

module _ (clusters bits : ℕ) (f : Fat32) {g : Fat32} (same : SameVolume f g) where
  set-IsListed :
      (n cluster : ℕ) (blocks : List ℕ) (d : Disks)
      → n < nr_disks
      → Within clusters cluster
      → IsListed clusters bits f d
      → IsListed clusters bits f (record d {
        disk_lba = set d.disk_lba n (get_lba g cluster);
        disk_blocks = blocks;
        disk_cluster = set d.disk_cluster n cluster;
      })
  set-IsListed n cluster blocks d within bound is = record {
    lbas = length-set d.disk_lba n _ ∙ is.lbas;
    starts = length-set d.disk_cluster n _ ∙ is.starts;
    listed = λ i. elim (Bool-cases (i == n)) [
      | inl e ↦ here i (ground arith)
      | inr e ↦ there i (ground arith)
    ];
    below = λ i. elim (Bool-cases (i == n)) [
      | inl e ↦ below_here i (ground arith)
      | inr e ↦ below_there i (ground arith)
    ];
    config_below = is.config_below;
    bitmap = is.bitmap;
  }
    where
      here :
          (i : ℕ)
          → i ≡ n
          → (get_or (set d.disk_lba n (get_lba g cluster)) i 0 ≡ 0)
            ⊎ (get_or (set d.disk_lba n (get_lba g cluster)) i 0
                ≡ get_lba f (get_or (set d.disk_cluster n cluster) i 0))
      here i e =
          rw
            (
              e,
              get_or-set_hit d.disk_lba n (get_lba g cluster) 0 (omega (arith, is.lbas)),
              get_or-set_hit d.disk_cluster n cluster 0 (omega (arith, is.starts)),
            )
            (inr (get_lba-same f cluster same))

      there :
          (i : ℕ)
          → i ≢ n
          → (get_or (set d.disk_lba n (get_lba g cluster)) i 0 ≡ 0)
            ⊎ (get_or (set d.disk_lba n (get_lba g cluster)) i 0
                ≡ get_lba f (get_or (set d.disk_cluster n cluster) i 0))
      there i e =
          rw
            (
              get_or-set_miss d.disk_lba n i (get_lba g cluster) 0 e,
              get_or-set_miss d.disk_cluster n i cluster 0 e,
            )
            (is.listed i)

      below_here : (i : ℕ) → i ≡ n → Within clusters (get_or (set d.disk_cluster n cluster) i 0)
      below_here i e =
          rw (e, get_or-set_hit d.disk_cluster n cluster 0 (omega (arith, is.starts))) bound

      below_there : (i : ℕ) → i ≢ n → Within clusters (get_or (set d.disk_cluster n cluster) i 0)
      below_there i e = rw (get_or-set_miss d.disk_cluster n i cluster 0 e) (is.below i)

  note_disk-Lists :
      (buff : List ℕ) (i : ℕ) (d : Disks)
      → (is_disk_entry buff i ≡ true → Within clusters (entry_cluster buff i) × HasLetter buff i)
      → IsListed clusters bits f d
      → Lists clusters bits f (note_disk g buff i d)
  unfolding note_disk
  note_disk-Lists buff i d named is = elim (Bool-cases (is_disk_entry buff i)) [
    | inr e ↦ rw e is
    | inl e ↦
        elim (Bool-cases
          (ltb (get_or buff (i + 4) 0) 0x41 || leb nr_disks (get_or buff (i + 4) 0 - 0x41))) [
            | inl out ↦ let (low, high) = (named e).1 in absurd (ground arith)
            | inr within ↦ rw (e, within) (set-IsListed _ _ _ d (ground arith) (named e).0 is)
          ]
  ]

  note_config-IsListed :
      (buff : List ℕ) (i : ℕ) (d : Disks)
      → (is_config_entry buff i ≡ true → Within clusters (entry_cluster buff i))
      → IsListed clusters bits f d
      → IsListed clusters bits f (note_config g buff i d)
  unfolding note_config
  note_config-IsListed buff i d named is = elim (Bool-cases (is_config_entry buff i)) [
    | inl e ↦ rw e (record {
      lbas = is.lbas;
      starts = is.starts;
      listed = is.listed;
      below = is.below;
      config_below = named e;
      bitmap = is.bitmap;
    })
    | inr e ↦ rw e is
  ]

  note_entry-Lists :
      (buff : List ℕ) (i : ℕ) (d : Disks)
      → (is_disk_entry buff i ≡ true → Within clusters (entry_cluster buff i) × HasLetter buff i)
      → (is_config_entry buff i ≡ true → Within clusters (entry_cluster buff i))
      → IsListed clusters bits f d
      → Lists clusters bits f (note_entry g buff i d)
  unfolding note_entry
  note_entry-Lists buff i d named config is = elim (Bool-cases (get_or buff (i + 11) 0 == 0x0f)) [
    | inl e ↦ rw e is
    | inr e ↦ rw e (go (note_disk g buff i d) (note_disk-Lists buff i d named is))
  ]
    where
      go :
          (o : Option Disks)
          → Lists clusters bits f o
          → Lists clusters bits f
              (elim o [ none ↦ none | some d' ↦ some (note_config g buff i d') ])
      go none h = absurd h
      go (some d') is' = note_config-IsListed buff i d' config is'

  process_entries-Lists :
      (n : ℕ) (buff : List ℕ) (i : ℕ) (d : Disks)
      → Names clusters n buff i
      → IsListed clusters bits f d
      → Lists clusters bits f (process_entries n g buff i d)
  unfolding process_entries
  process_entries-Lists zero buff i d names is = is
  process_entries-Lists (suc n) buff i d (named, config, rest) is =
      let more = λ (d' : Disks) (is' : IsListed clusters bits f d').
        process_entries-Lists n buff (i + 32) d' rest is' in
      elim (Bool-cases (get_or buff i 0 == 0x00)) [
        | inl e ↦ rw e is
        | inr e ↦ elim (Bool-cases (get_or buff i 0 == 0xe5)) [
          | inl free ↦ rw (e, free) (more d is)
          | inr used ↦
              rw (e, used)
                (go more (note_entry g buff i d) (note_entry-Lists buff i d named config is))
        ]
      ]
    where
      go :
          ((d' : Disks)
            → IsListed clusters bits f d'
            → Lists clusters bits f (process_entries n g buff (i + 32) d'))
          → (o : Option Disks) → Lists clusters bits f o
          → Lists clusters bits f
              (elim o [ none ↦ none | some d' ↦ process_entries n g buff (i + 32) d' ])
      go more none h = absurd h
      go more (some d') is' = more d' is'

  pub process_dir_sector-Lists :
      (buff : List ℕ) (d : Disks)
      → Names clusters 16 buff 0
      → IsListed clusters bits f d
      → Lists clusters bits f (process_dir_sector g buff d)
  unfolding process_dir_sector
  process_dir_sector-Lists buff d names is = process_entries-Lists 16 buff 0 d names is
