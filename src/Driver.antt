-- ===== src/Driver.antt =====
-- dos/SDPP10/DRIVER.C and find_volume of dos/SDPP10/LPTSTORE.C: the DOS device driver, which mounts a
-- unit's FAT volume and turns DOS's requests into LPTRead and LPTWrite.
pub mod Requests
pub mod Options
pub mod Lengths
pub mod Laws
pub mod Transfers
pub mod Errors
use lptstore.Prelude.{
  ℕ, ◌+◌, ◌-◌, ◌*◌, ◌/◌, ◌%◌, ◌^◌, Bool, true, false, not, ◌&&◌, ◌||◌, List, [], ◌∷◌, ◌++◌, ◌==◌,
  ltb, if◌then◌else◌, Option, none, some, drop, get_or,
}
use lptstore.Host.{
  Peer, Run, ok, waits, fault, pure, ◌>>=◌, ◌>>◌, halt, res_ok, res_error, res_wrprt, res_notrdy,
  res_parerr, lpt_read, lpt_write,
}

-- bpb_t.
pub record Bpb : Type 0 where
  pub bpb_sector_size : ℕ
  pub allocation_unit : ℕ
  pub reserved_sectors : ℕ
  pub fat_count : ℕ
  pub directory_size : ℕ
  pub total_sectors : ℕ
  pub media_descriptor : ℕ
  pub fat_sectors : ℕ
  pub track_size : ℕ
  pub head_count : ℕ
  pub hidden_sectors : ℕ
  pub sector_count : ℕ

-- The global variables. `bpb` and `init_needed` have NR_DRIVES entries.
pub record Driver : Type 0 where
  pub init_needed : ℕ → Bool
  pub bpb : ℕ → Bpb
  pub disk_initialized : ℕ
  pub partition_offset : ℕ
  pub partition_number : ℕ
  pub local_buffer : List ℕ
  pub debug : Bool
  pub portbase : ℕ

abbrev pub nr_drives : ℕ
nr_drives = 16

-- LD_WORD and LD_DWORD: a number at an offset, the low byte first.
abbrev pub ld_word : List ℕ → ℕ → ℕ
ld_word buff at = get_or buff at 0 + get_or buff (at + 1) 0 * 2 ^ 8

abbrev pub ld_dword : List ℕ → ℕ → ℕ
ld_dword buff at = ld_word buff at + ld_word buff (at + 2) * 2 ^ 16

abbrev pub update {ℓ} : {A : Type ℓ} → (ℕ → A) → ℕ → A → ℕ → A
update f n a i = if i == n then a else f i

-- What check_fs makes of a sector: 0 is a FAT boot sector, 1 a boot sector, 2 is neither.
unfoldable pub boot_kind : List ℕ → ℕ
boot_kind buff =
    if not (ld_word buff 510 == 0xaa55)
    then 2
    else if ld_dword buff 54 % 2 ^ 24 == 0x54_4146
    then 0
    else if ld_dword buff 82 % 2 ^ 24 == 0x54_4146
    then 0
    else 1

-- `br[i]` of find_volume.
unfoldable pub partition_start : List ℕ → ℕ → ℕ
partition_start buff i =
    let pt = 446 + i * 16 in if get_or buff (pt + 4) 0 == 0 then 0 else ld_dword buff (pt + 8)

-- `disk_initialized & (1 << unit)` and `disk_initialized |= 1 << unit`.
abbrev pub has_unit : ℕ → ℕ → Bool
has_unit word unit = word / 2 ^ unit % 2 == 1

abbrev pub add_unit : ℕ → ℕ → ℕ
add_unit word unit = if has_unit word unit then word else word + 2 ^ unit

-- find_volume from the check of the sector size on. The Boolean is false for the result -3.
unfoldable pub fill_bpb : List ℕ → Bpb → Bool × Bpb
fill_bpb buff old =
    if not (ld_word buff 11 == 512)
    then (false, old)
    else if ld_word buff 14 == 0
    then (
      false,
      record old {
        bpb_sector_size = 512;
        allocation_unit = get_or buff 13 0;
        reserved_sectors = 0;
      },
    )
    else (
      true,
      record {
        bpb_sector_size = 512;
        allocation_unit = get_or buff 13 0;
        reserved_sectors = ld_word buff 14;
        fat_count = if get_or buff 16 0 == 0 then 2 else get_or buff 16 0;
        directory_size = ld_word buff 17;
        total_sectors = ld_word buff 19;
        sector_count = if ld_word buff 19 == 0 then ld_dword buff 32 else ld_word buff 19;
        media_descriptor = get_or buff 21 0;
        fat_sectors = ld_word buff 22;
        track_size = ld_word buff 24;
        head_count = ld_word buff 26;
        hidden_sectors = 1;
      },
    )

-- The results 0, -2 and -3 of find_volume.
pub data Volume : Type 0 where
  found : Volume
  disk_error : Volume
  no_volume : Volume

module _ (P : Peer) where
  -- LPTRead takes the sector number as a WORD.
  unfoldable pub check_fs : ℕ → ℕ → Driver → P.State → Run P.State (ℕ × Driver)
  check_fs unit sect d = do
    (ret, buff) ← lpt_read P 1 unit (sect % 2 ^ 16) d.local_buffer
    pure (if ret == res_ok then boot_kind buff else 3, record d { local_buffer = buff })

  -- The do-while loop over the entries of `br` from `br[i]` on. An index past 3 is a fault.
  unfoldable pub find_partition : ℕ → ℕ → List ℕ → Driver → P.State → Run P.State (ℕ × ℕ × Driver)
  find_partition unit partno [] d = halt
  find_partition unit partno (bsect ∷ rest) d = do
    (fmt, d') ← if bsect == 0 then pure (2, d) else check_fs unit bsect d
    elim rest [
      | [] ↦ pure (fmt, bsect, d')
      | _ ∷ _ ↦
          if partno == 0 && not (fmt == 0)
          then find_partition unit partno rest d'
          else pure (fmt, bsect, d')
    ]

  unfoldable pub mount_volume : ℕ → ℕ → ℕ → Driver → P.State → Run P.State (Volume × Driver)
  mount_volume unit fmt bsect d =
      if fmt == 3
      then pure (disk_error, d)
      else if not (fmt == 0)
      then pure (no_volume, d)
      else (let (good, table) = fill_bpb d.local_buffer (d.bpb unit) in
          let d' = record d { bpb = update d.bpb unit table } in
          if good
          then pure (
            found,
            record d' {
              partition_offset = bsect;
              disk_initialized = add_unit d.disk_initialized unit;
            },
          )
          else pure (no_volume, d'))

  unfoldable pub find_volume : ℕ → ℕ → Driver → P.State → Run P.State (Volume × Driver)
  find_volume unit partno d = if has_unit d.disk_initialized unit then pure (found, d) else (do
    (fmt, d1) ← check_fs unit 0 d
    if fmt == 1 || (fmt == 0 && not (partno == 0))
        then (do
          let b = d1.local_buffer
          let br =
              partition_start b 0
              ∷ partition_start b 1
              ∷ partition_start b 2
              ∷ partition_start b 3
              ∷ []
          (fmt', bsect, d2) ← find_partition unit partno (drop (partno - 1) br) d1
          mount_volume unit fmt' bsect d2)
        else mount_volume unit fmt 0 d1)

  unfoldable pub lpt_initialize : ℕ → ℕ → Driver → P.State → Run P.State (Bool × Driver)
  lpt_initialize unit partno d = do
    (volume, d') ← find_volume unit partno d
    elim volume [
      | found ↦ pure (true, d')
      | disk_error ↦ pure (false, d')
      | no_volume ↦ pure (false, d')
    ]
