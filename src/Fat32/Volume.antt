-- ===== src/Fat32/Volume.antt =====
-- The scan of the medium and the external functions of fs/fat32.c.
use Prim.Native.Nat.{bit_or}
use lptstore.Prelude.{
  ℕ, zero, suc, ◌+◌, ◌^◌, ◌&&◌, List, Option, none, some, ltb, leb, ◌==◌, if◌then◌else◌, get_or,
  get_elem?, set,
}
use lptstore.Fat32.{
  Medium, Fat32, Disks, Walk, ended, out_of_fuel, u32, le16, le32, nr_disks, cfg_disk, config_block,
  in_chain, get_lba, process_dir_sector, get_next_cluster, file_has_gaps,
}

-- `none` is an access outside an array.
unfoldable pub get_disk_blocks : ℕ → Disks → Option ℕ
get_disk_blocks disk d =
    if disk == cfg_disk
    then some d.cfg_blocks
    else if leb disk nr_disks
    then elim (get_elem? d.disk_lba disk) [
      | none ↦ none
      | some lba ↦ if lba == 0 then some 0 else get_elem? d.disk_blocks disk
    ]
    else some 0

-- The sector of the medium that the tests of read_disk_sector and write_disk_sector lead to: outside
-- the arrays; none (the result -1); or this one.
pub data Place : Type 0 where
  outside : Place
  nowhere : Place
  at : ℕ → Place

unfoldable pub disk_place : ℕ → ℕ → Disks → Place
disk_place disk sector d =
    if leb disk nr_disks
    then elim (get_elem? d.disk_lba disk) [
      | none ↦ outside
      | some lba ↦
          if ltb 0 lba && ltb sector (get_or d.disk_blocks disk 0)
          then at (u32 (lba + sector))
          else nowhere
    ]
    else nowhere

unfoldable pub place : ℕ → ℕ → Disks → Place
place disk sector d =
    if disk == cfg_disk && ltb 0 d.cfg_lba && ltb sector d.cfg_blocks
    then at (u32 (d.cfg_lba + sector))
    else disk_place disk sector d

module _ (M : Medium) where
  unfoldable pub read_disk_sector : ℕ → ℕ → List ℕ → Disks → M.State → Option (ℕ × List ℕ × M.State)
  read_disk_sector disk sector buff d s = elim (place disk sector d) [
    | outside ↦ none
    | nowhere ↦ some (0xffff_ffff, buff, s)
    | at lba ↦ some (M.read_sector lba buff s)
  ]

  unfoldable pub write_disk_sector : ℕ → ℕ → List ℕ → Disks → M.State → Option (ℕ × M.State)
  write_disk_sector disk sector buff d s = elim (place disk sector d) [
    | outside ↦ none
    | nowhere ↦ some (0xffff_ffff, s)
    | at lba ↦ some (M.write_sector lba buff s)
  ]

  -- `buff` and `f` start as whatever the stack holds. The result is that of the function.
  unfoldable pub read_fs_id : List ℕ → Fat32 → M.State → ℕ × Fat32 × M.State
  read_fs_id stack f s =
      let (_, buff, s') = M.read_sector 0 stack s in
      if get_or buff 0x1fe 0 == 0x55 && get_or buff 0x1ff 0 == 0xaa
      then (
        0,
        record f {
          sectors_per_cluster = get_or buff 0x0d 0;
          reserved_sector_count = le16 buff 0x0e;
          sectors_per_fat = le32 buff 0x24;
          root_directory_first_cluster = le32 buff 0x2c;
        },
        s',
      )
      else (1, f, s')

  -- What read_file has done: its buffer, the static variables, and the medium. `none`: the callback
  -- process_dir_sector has written outside an array.
  abbrev pub Scan : Type 0
  Scan = Option (List ℕ × Disks × M.State)

  -- The sectors of one cluster: `n` are left, the next is the i-th.
  unfoldable pub read_cluster : ℕ → Fat32 → ℕ → ℕ → List ℕ → Disks → M.State → Scan
  read_cluster zero f lba i buff d s = some (buff, d, s)
  read_cluster (suc n) f lba i buff d s =
      let (_, sector, s') = M.read_sector (u32 (lba + i)) buff s in
      elim (process_dir_sector f sector d) [
        | none ↦ none
        | some d' ↦ read_cluster n f lba (i + 1) sector d' s'
      ]

  -- read_file with process_dir_sector as its callback.
  unfoldable pub read_file :
      ℕ → ℕ → Fat32 → List ℕ → Disks → M.State → Walk (Option (Fat32 × Disks × M.State))
  read_file zero cluster f buff d s = out_of_fuel
  read_file (suc fuel) cluster f buff d s =
      if in_chain cluster
      then elim (read_cluster f.sectors_per_cluster f (get_lba f cluster) 0 buff d s) [
        | none ↦ ended none
        | some (buff', d', s') ↦
            (let (next, g, s'') = get_next_cluster M cluster f s' in
              read_file fuel next g buff' d' s'')
      ]
      else ended (some (f, d, s))

  -- The `if` in the loop of init_disk over the disks, for disk `i`.
  unfoldable pub check_disk : ℕ → ℕ → Fat32 → Disks → M.State → Walk (Fat32 × Disks × M.State)
  check_disk fuel i f d s =
      if get_or d.disk_lba i 0 == 0
      then ended (f, d, s)
      else elim (file_has_gaps M fuel (get_or d.disk_cluster i 0) f s) [
        | out_of_fuel ↦ out_of_fuel
        | ended (gaps, g, s') ↦
            if gaps == 0
            then ended (g, record d { disk_bitmap = bit_or d.disk_bitmap (2 ^ i) }, s')
            else ended (
              g,
              record d { disk_lba = set d.disk_lba i 0; disk_cluster = set d.disk_cluster i 0 },
              s',
            )
      ]

  -- The loop: `n` disks are left, the next is `i`.
  unfoldable pub check_disks : ℕ → ℕ → ℕ → Fat32 → Disks → M.State → Walk (Fat32 × Disks × M.State)
  check_disks fuel zero i f d s = ended (f, d, s)
  check_disks fuel (suc n) i f d s = elim (check_disk fuel i f d s) [
    | out_of_fuel ↦ out_of_fuel
    | ended (g, d', s') ↦ check_disks fuel n (i + 1) g d' s'
  ]

  unfoldable pub check_config : ℕ → Fat32 → Disks → M.State → Walk (Disks × M.State)
  check_config fuel f d s =
      if d.cfg_cluster == 0 then ended (d, s) else elim (file_has_gaps M fuel d.cfg_cluster f s) [
        | out_of_fuel ↦ out_of_fuel
        | ended (gaps, g, s') ↦
            if gaps == 0
            then ended (record d { disk_bitmap = bit_or d.disk_bitmap config_block }, s')
            else ended (record d { cfg_cluster = 0 }, s')
      ]

  -- The result of the function is 1 where there is no boot sector. `f` is what the stack holds for
  -- `fat32`: nothing sets its `fat.offset`.
  unfoldable pub init_disk :
      ℕ → List ℕ → Fat32 → Disks → M.State → Walk (Option (ℕ × Disks × M.State))
  init_disk fuel stack f d s =
      let clear = record d { disk_bitmap = 0 } in
      let (bad, g, s') = read_fs_id stack f s in
      if bad == 0
      then elim (read_file fuel g.root_directory_first_cluster g stack clear s') [
        | out_of_fuel ↦ out_of_fuel
        | ended none ↦ ended none
        | ended (some (g', d', s'')) ↦ elim (check_disks fuel 16 0 g' d' s'') [
          | out_of_fuel ↦ out_of_fuel
          | ended (h, d'', t) ↦ elim (check_config fuel h d'' t) [
            | out_of_fuel ↦ out_of_fuel
            | ended (e, t') ↦ ended (some (0, e, t'))
          ]
        ]
      ]
      else ended (some (1, clear, s'))
