-- ===== src/DiskFake/Laws.antt =====
-- The fake disk keeps what is written to it, while it has room.
use lptstore.Prelude.{
  ℕ, suc, ◌+◌, ◌-◌, ◌^◌, ◌≤◌, ◌<◌, ◌≡◌, refl, List, [], ◌∷◌, length, arith, ◌==◌, if◌then◌else◌,
  false, All,
}
use lptstore.DiskFake.{Block, is_block, get_block, put_block, max_blocks, disk_fake}
use lptstore.Session.Store.{Store}

module _ (disk lbn : ℕ) (bytes : List ℕ) where
  pub get_block-put_block :
      (room j : ℕ) (blocks : List Block)
      → lbn < 2 ^ 16
      → length blocks < room
      → get_block disk j (put_block disk lbn bytes room blocks)
        ≡ (if j == lbn then bytes else get_block disk j blocks)
  unfolding get_block put_block
  get_block-put_block room j [] hl h = ground arith
  get_block-put_block room j (b ∷ blocks) hl h =
      ground (arith, get_block-put_block (room - 1) j blocks)

  pub length-put_block :
      (room : ℕ) (blocks : List Block)
      → length (put_block disk lbn bytes room blocks) ≤ length blocks + 1
  unfolding put_block
  length-put_block room [] = ground arith
  length-put_block room (b ∷ blocks) = ground (arith, length-put_block (room - 1) blocks)

  put_block-no_room :
      (room : ℕ) (blocks : List Block)
      → length blocks ≡ room
      → All (λ b. is_block disk lbn b ≡ false) blocks
      → put_block disk lbn bytes room blocks ≡ blocks
  unfolding put_block
  put_block-no_room room [] full other = ground arith
  put_block-no_room room (b ∷ blocks) full (differs, other) =
      rw (differs, put_block-no_room (room - 1) blocks (omega arith) other)

  -- Once 200 sectors are kept, a write to any other sector is lost, though it reports success: the
  -- disk is as before.
  pub write_sector-full :
      (blocks : List Block)
      → length blocks ≡ max_blocks
      → All (λ b. is_block disk lbn b ≡ false) blocks
      → disk_fake.write_sector disk lbn bytes blocks ≡ (0, blocks)
  write_sector-full blocks full other = rw (put_block-no_room max_blocks blocks full other)

pub room_before :
    (n : ℕ) (blocks : List Block) → length blocks + suc n ≤ max_blocks → length blocks < max_blocks
room_before n blocks h = omega arith

pub room_after :
    (unit lba n : ℕ) (sector : List ℕ) (blocks : List Block)
    → length blocks + suc n ≤ max_blocks
    → length (put_block unit lba sector max_blocks blocks) + n ≤ max_blocks
room_after unit lba n sector blocks h =
    omega (arith, length-put_block unit lba sector max_blocks blocks)

abbrev pub fake_store : (unit : ℕ) → Store disk_fake unit
fake_store unit = record {
  Room = λ n blocks. length blocks + n ≤ max_blocks;
  Has = λ lba. lba < 2 ^ 16;
  view = λ blocks lba. get_block unit lba blocks;
  reads = λ lba n buff blocks room has. (blocks, refl, room, λ j h. refl);
  writes = λ lba n sector blocks room has is. (
    put_block unit lba sector max_blocks blocks,
    refl,
    room_after unit lba n sector blocks room,
    λ j h. get_block-put_block unit lba sector max_blocks j blocks has (room_before n blocks room),
  );
}
