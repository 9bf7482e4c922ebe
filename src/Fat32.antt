-- ===== src/Fat32.antt =====
-- fs/fat32.c: which files of a FAT32 medium are disks, and where their sectors lie.
pub mod Rounds
pub mod Cache
pub mod Chains
pub mod Places
pub mod Ends
pub mod Verdicts
pub mod Decides
pub mod Volume
pub mod Drives
pub mod Listing
pub mod Directory
pub mod Drops
pub mod Entries
pub mod Checks
pub mod Config
pub mod Mount
pub mod Access
use lptstore.Prelude.{
  ℕ, zero, suc, ◌+◌, ◌-◌, ◌*◌, ◌/◌, ◌%◌, ◌^◌, Bool, true, false, not, ◌&&◌, ◌||◌, List, [], ◌∷◌,
  ◌++◌, Option, none, some, ltb, leb, ◌==◌, if◌then◌else◌, get_or, get_elem?, set, take, drop,
  length, replicate,
}

-- The two functions that fat32.h calls external. An `int` is its 32-bit pattern.
pub record Medium : Type 1 where
  pub State : Type 0
  pub read_sector : ℕ → List ℕ → State → ℕ × List ℕ × State
  pub write_sector : ℕ → List ℕ → State → ℕ × State

abbrev pub u32 : ℕ → ℕ
u32 n = n % 2 ^ 32

abbrev pub le16 : List ℕ → ℕ → ℕ
le16 buff i = get_or buff i 0 + get_or buff (i + 1) 0 * 2 ^ 8

abbrev pub le32 : List ℕ → ℕ → ℕ
le32 buff i = le16 buff i + le16 buff (i + 2) * 2 ^ 16

abbrev pub nr_disks : ℕ
nr_disks = 16

abbrev pub cfg_disk : ℕ
cfg_disk = 0xff

abbrev pub config_block : ℕ
config_block = 0x8000_0000

-- fat32_t; `fat_rec` is the sector read last, as bytes, and `fat_offset` its first cluster.
pub record Fat32 : Type 0 where
  pub sectors_per_cluster : ℕ
  pub reserved_sector_count : ℕ
  pub sectors_per_fat : ℕ
  pub root_directory_first_cluster : ℕ
  pub fat_offset : ℕ
  pub fat_rec : List ℕ

-- The static variables.
pub record Disks : Type 0 where
  pub disk_bitmap : ℕ
  pub disk_cluster : List ℕ
  pub disk_lba : List ℕ
  pub disk_blocks : List ℕ
  pub cfg_lba : ℕ
  pub cfg_blocks : ℕ
  pub cfg_cluster : ℕ

abbrev pub no_disks : Disks
no_disks = record {
  disk_bitmap = 0;
  disk_cluster = replicate 16 0;
  disk_lba = replicate 16 0;
  disk_blocks = replicate 16 0;
  cfg_lba = 0;
  cfg_blocks = 0;
  cfg_cluster = 0;
}

unfoldable pub get_lba : Fat32 → ℕ → ℕ
get_lba f cluster = u32 (
    f.reserved_sector_count
    + f.sectors_per_fat * 2
    + f.sectors_per_cluster * u32 (cluster + 2 ^ 32 - 2))

-- Is the entry of `cluster` outside the sector that `fat` holds?
unfoldable pub fat_miss : Fat32 → ℕ → Bool
fat_miss f cluster =
    f.fat_offset == 0xffff_ffff
    || ltb cluster f.fat_offset
    || ltb (u32 (f.fat_offset + 127)) cluster

-- `memcmp` with a text of `n` bytes that match `name`.
unfoldable pub bytes_at : List ℕ → ℕ → List ℕ → Bool
bytes_at buff i [] = true
bytes_at buff i (c ∷ name) = get_or buff i 0 == c && bytes_at buff (i + 1) name

-- "DISK", "   DAT", "CONFIG  BIN"
abbrev pub name_disk : List ℕ
name_disk = 0x44 ∷ 0x49 ∷ 0x53 ∷ 0x4b ∷ []

abbrev pub name_dat : List ℕ
name_dat = 0x20 ∷ 0x20 ∷ 0x20 ∷ 0x44 ∷ 0x41 ∷ 0x54 ∷ []

abbrev pub name_config : List ℕ
name_config = 0x43 ∷ 0x4f ∷ 0x4e ∷ 0x46 ∷ 0x49 ∷ 0x47 ∷ 0x20 ∷ 0x20 ∷ 0x42 ∷ 0x49 ∷ 0x4e ∷ []

-- `buff[i+11] & 0x20`
abbrev pub is_archive : List ℕ → ℕ → Bool
is_archive buff i = get_or buff (i + 11) 0 / 0x20 % 2 == 1

abbrev pub entry_cluster : List ℕ → ℕ → ℕ
entry_cluster buff i = le16 buff (i + 20) * 2 ^ 16 + le16 buff (i + 26)

-- The `if` for DISKn.DAT; `none` is a write outside the arrays, for an `n` not in A to P.
unfoldable pub note_disk : Fat32 → List ℕ → ℕ → Disks → Option Disks
note_disk f buff i d =
    let letter = get_or buff (i + 4) 0 in
    let n = letter - 0x41 in
    let cluster = entry_cluster buff i in
    if bytes_at buff i name_disk && bytes_at buff (i + 5) name_dat && is_archive buff i
    then (if ltb letter 0x41 || leb nr_disks n
        then none
        else some (record d {
          disk_lba = set d.disk_lba n (get_lba f cluster);
          disk_blocks = set d.disk_blocks n (le32 buff (i + 28) / 2 ^ 9);
          disk_cluster = set d.disk_cluster n cluster;
        }))
    else some d

unfoldable pub note_config : Fat32 → List ℕ → ℕ → Disks → Disks
note_config f buff i d =
    let cluster = entry_cluster buff i in
    if bytes_at buff i name_config && is_archive buff i
    then record d {
      cfg_lba = get_lba f cluster;
      cfg_blocks = le32 buff (i + 28) / 2 ^ 9;
      cfg_cluster = cluster;
    }
    else d

-- The body of the loop for an entry that is in use.
unfoldable pub note_entry : Fat32 → List ℕ → ℕ → Disks → Option Disks
unfolding note_disk note_config bytes_at get_lba
note_entry f buff i d =
    if get_or buff (i + 11) 0 == 0x0f
    then some d
    else elim (note_disk f buff i d) [ none ↦ none | some d' ↦ some (note_config f buff i d') ]

-- `n` entries are left, the next at `i`.
unfoldable pub process_entries : ℕ → Fat32 → List ℕ → ℕ → Disks → Option Disks
unfolding note_entry
process_entries zero f buff i d = some d
process_entries (suc n) f buff i d =
    let rest = λ (d' : Disks). process_entries n f buff (i + 32) d' in
    if get_or buff i 0 == 0x00
    then some d
    else if get_or buff i 0 == 0xe5
    then rest d
    else elim (note_entry f buff i d) [ none ↦ none | some d' ↦ rest d' ]

unfoldable pub process_dir_sector : Fat32 → List ℕ → Disks → Option Disks
unfolding process_entries
process_dir_sector f buff d = process_entries 16 f buff 0 d

-- The inner loop of file_has_gaps: `n` sectors of the cluster are left, the next is the i-th. `none`:
-- a gap was found; otherwise the new `last_lba`.
unfoldable pub cluster_gap : ℕ → ℕ → ℕ → ℕ → Option ℕ
cluster_gap zero lba i last = some last
cluster_gap (suc n) lba i last =
    let rest = cluster_gap n lba (i + 1) (u32 (lba + i)) in
    if not (last == 0) && not (u32 (last + 1) == u32 (lba + i)) then none else rest

-- `cluster < 0x0ffffff0 && cluster > 0`
abbrev pub in_chain : ℕ → Bool
in_chain cluster = ltb cluster 0x0fff_fff0 && ltb 0 cluster

-- The result of a loop over a chain of clusters.
pub data Walk {ℓ} (A : Type ℓ) : Type ℓ where
  ended : A → Walk A
  out_of_fuel : Walk A

module _ (M : Medium) where
  unfoldable pub get_next_cluster : ℕ → Fat32 → M.State → ℕ × Fat32 × M.State
  get_next_cluster cluster f s =
      if fat_miss f cluster
      then (let (_, sector, s') =
            M.read_sector (cluster / 128 + f.reserved_sector_count) f.fat_rec s in
          let g = record f { fat_rec = sector; fat_offset = cluster - cluster % 128 } in
          (le32 g.fat_rec (4 * (cluster % 128)), g, s'))
      else (le32 f.fat_rec (4 * (cluster % 128)), f, s)

  -- 1 is returned where a gap is found. `last` is last_lba.
  unfoldable pub gap_loop : ℕ → ℕ → ℕ → Fat32 → M.State → Walk (ℕ × Fat32 × M.State)
  gap_loop zero cluster last f s = out_of_fuel
  gap_loop (suc fuel) cluster last f s =
      let rest = λ (last' : ℕ).
        let (next, g, s') = get_next_cluster cluster f s in gap_loop fuel next last' g s' in
      if in_chain cluster
      then elim (cluster_gap f.sectors_per_cluster (get_lba f cluster) 0 last) [
        | none ↦ ended (1, f, s)
        | some last' ↦ rest last'
      ]
      else ended (0, f, s)

  unfoldable pub file_has_gaps : ℕ → ℕ → Fat32 → M.State → Walk (ℕ × Fat32 × M.State)
  file_has_gaps fuel cluster f s = gap_loop fuel cluster 0 f s
