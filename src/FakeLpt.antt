-- ===== src/FakeLpt.antt =====
-- LPTRead and LPTWrite of dos/SDPP10/LPTSTORE.C as FAKE_LPT builds them: a disk in the driver's memory,
-- which keeps at most 50 written sectors. The images and the kept sectors are those of `DiskFake`.
pub mod Agreement
use lptstore.Prelude.{
  ℕ, zero, suc, ◌+◌, ◌-◌, ◌%◌, ◌^◌, List, [], ◌∷◌, ◌++◌, Option, none, some, ltb, ◌==◌,
  if◌then◌else◌, length, take, drop,
}
use lptstore.Host.{res_ok}
use lptstore.DiskFake.{Block, is_block, get_block}

abbrev pub max_blocks : ℕ
max_blocks = 50

-- LPTRead with `count` rounds to go; the list is the memory from `buffer` on. `none`: a sector is
-- written past its end.
unfoldable pub lpt_read : ℕ → ℕ → ℕ → List ℕ → List Block → Option (ℕ × List ℕ)
lpt_read zero unit lbn buffer blocks = some (res_ok, buffer)
lpt_read (suc count) unit lbn buffer blocks =
    let rest = lpt_read count unit ((lbn + 1) % 2 ^ 16) (drop 512 buffer) blocks in
    if ltb (length buffer) 512 then none else elim rest [
      | none ↦ none
      | some (ret, behind) ↦ some (ret, get_block unit lbn blocks ++ behind)
    ]

-- The loop of LPTWrite over the kept sectors, and what follows it. Past the last `room` is
-- MAX_BLOCKS - nrBlocks; blockUnit is an array of BYTE.
unfoldable pub put_block : ℕ → ℕ → List ℕ → ℕ → List Block → List Block
put_block unit lbn bytes room [] =
    if room == 0 then [] else record { unit = unit % 256; nr = lbn; bytes = bytes } ∷ []
put_block unit lbn bytes room (b ∷ blocks) =
    let later = put_block unit lbn bytes (room - 1) blocks in
    if is_block unit lbn b then record b { bytes = bytes } ∷ blocks else b ∷ later

unfoldable pub lpt_write : ℕ → ℕ → ℕ → List ℕ → List Block → ℕ × List Block
lpt_write zero unit lbn buffer blocks = (res_ok, blocks)
lpt_write (suc count) unit lbn buffer blocks =
    lpt_write count unit ((lbn + 1) % 2 ^ 16) (drop 512 buffer)
      (put_block unit lbn (take 512 buffer) max_blocks blocks)
