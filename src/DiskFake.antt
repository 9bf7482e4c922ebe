-- ===== src/DiskFake.antt =====
-- pico/diskfake.c: a disk in memory behind disk.h, which keeps at most 200 written sectors.
mod Images
pub mod Laws
unfoldable pub use Images.{xaa, xae}
use lptstore.Prelude.{
  ℕ, zero, suc, ◌+◌, ◌-◌, ◌*◌, ◌%◌, ◌^◌, ◌&&◌, Bool, List, [], ◌∷◌, ◌==◌, if◌then◌else◌, replicate,
}
use lptstore.Disk.{Disk}

abbrev pub max_blocks : ℕ
max_blocks = 200

-- One index of the arrays `blocks`, `blockNr` (uint16_t) and `blockUnit` (uint8_t).
pub record Block : Type 0 where
  pub unit : ℕ
  pub nr : ℕ
  pub bytes : List ℕ

-- `blockUnit[j] == disk && blockNr[j] == lbn`
unfoldable pub is_block : ℕ → ℕ → Block → Bool
is_block disk lbn b = b.unit == disk && b.nr == lbn

-- The sector of a disk that was never written.
unfoldable pub fresh_sector : ℕ → List ℕ
fresh_sector lbn =
    if lbn == 0 then xaa else if lbn == 4 then xae else if lbn == 68 then xae else replicate 512 0

-- The loop of disk_read_sector over the first `nrBlocks` indices, and what follows it.
unfoldable pub get_block : ℕ → ℕ → List Block → List ℕ
unfolding is_block
get_block disk lbn [] = fresh_sector lbn
get_block disk lbn (b ∷ blocks) =
    let later = get_block disk lbn blocks in if is_block disk lbn b then b.bytes else later

-- The loop of disk_write_sector. Past the last block `room` is MAX_BLOCKS - nrBlocks.
unfoldable pub put_block : ℕ → ℕ → List ℕ → ℕ → List Block → List Block
unfolding is_block
put_block disk lbn bytes room [] =
    if room == 0 then [] else record { unit = disk; nr = lbn % 2 ^ 16; bytes = bytes } ∷ []
put_block disk lbn bytes room (b ∷ blocks) =
    let later = put_block disk lbn bytes (room - 1) blocks in
    if is_block disk lbn b then record b { bytes = bytes } ∷ blocks else b ∷ later

abbrev pub disk_fake : Disk
disk_fake = record {
  State = List Block;
  read_sector = λ disk lbn buff blocks. (0, get_block disk lbn blocks, blocks);
  write_sector = λ disk lbn buff blocks. (0, put_block disk lbn buff max_blocks blocks);
  get_blocks = λ disk blocks. 32 * 1024 * 2;
  get_drives = λ blocks. 0xffff;
}
