-- ===== src/Examples/Requests.antt =====
-- DOS's requests over the cable.
use lptstore.Prelude.{
  some, ◌+◌, suc, length, ℕ, ◌≡◌, ◌<◌, ◌≤◌, inr, refl, List, [], ◌∷◌, ◌++◌, replicate, arith, true,
  false, Bool, none, All, leb, ◌&&◌,
}
use lptstore.Compress.{
  IsByte, compress, compress_loop, pack_byte, pack_zero, pack_literal, pack_end, emit,
}
use lptstore.Protocol.{Pico}
use lptstore.Protocol.Sectors.{IsSector, IsReady}
use lptstore.Host.{ok}
use lptstore.Session.{cable_peer}
use lptstore.Session.Read.{idle, sectors}
use lptstore.Session.Store.{rewritten, writing}
use lptstore.DiskFake.{disk_fake, get_block}
use lptstore.DiskFake.Laws.{fake_store}
use lptstore.Driver.{Bpb, Driver, boot_kind, fill_bpb}
use lptstore.Driver.Options.{Options, parse_options, parse_loop, spanwhite, skip_name}
use lptstore.Driver.Lengths.{parse_options-ends}
use lptstore.Driver.Requests.{Request, done, lpt_driver}
use lptstore.Driver.Transfers.{lpt_driver-reads, lpt_driver-writes}
use lptstore.Examples.Cable.{target, text, text-IsSector, fresh_reads}

abbrev pub geometry : Bpb
geometry = record {
  bpb_sector_size = 512;
  allocation_unit = 4;
  reserved_sectors = 1;
  fat_count = 2;
  directory_size = 512;
  total_sectors = 32768;
  media_descriptor = 0xf8;
  fat_sectors = 32;
  track_size = 32;
  head_count = 4;
  hidden_sectors = 1;
  sector_count = 32768;
}

-- Unit 3 is mounted, and every unit is to be initialized.
abbrev pub driver : Driver
driver = record {
  init_needed = λ i. true;
  bpb = λ i. geometry;
  disk_initialized = 8;
  partition_offset = 0;
  partition_number = 0;
  local_buffer = replicate 512 0;
  debug = false;
  portbase = 1;
}

abbrev pub request : Request
request = record {
  unit = 3;
  command = 4;
  status = 0;
  start = 100;
  count = 2;
  dta = replicate 1024 9;
  major = 8;
  minor = 0x60;
  options = [];
  nunits = 0;
  resident = false;
  media_status = 0;
  table = none;
  params = none;
  allowed = 0;
}

lpt_driver-reads_example :
    (d' : Driver) × (q : Pico disk_fake) × (lpt_driver
        (cable_peer disk_fake)
        driver
        request
        (idle disk_fake target)
      ≡ ok
          (d', record request { dta = sectors (λ _. replicate 512 0) 2 100; status = done })
          (idle disk_fake q))
    × (d'.bpb ≡ driver.bpb)
    × IsReady disk_fake q
    × (q.disk ≡ [])
lpt_driver-reads_example =
    lpt_driver-reads disk_fake request (λ _. replicate 512 0) fresh_reads driver target refl
      (omega arith) refl (omega arith) (omega arith, (omega arith, tt)) refl
      (record { buff_size = refl; compress_buff_size = refl }) refl

abbrev output : Request
output = record request { command = 9; count = 1; start = 17; dta = text }

lpt_driver-writes_example :
    (d' : Driver) × (q : Pico disk_fake) × (lpt_driver
        (cable_peer disk_fake)
        driver
        output
        (idle disk_fake target)
      ≡ ok (d', record output { status = done }) (idle disk_fake q))
    × (d'.disk_initialized ≡ 8)
    × IsReady disk_fake q
    × (length q.disk + 5 ≤ 200)
    × ((j : ℕ)
        → j < 65536
        → get_block 3 j q.disk ≡ rewritten 1 17 text (λ lba. get_block 3 lba []) j)
lpt_driver-writes_example =
    lpt_driver-writes disk_fake output (writing (fake_store 3)) driver target 5 (inr refl)
      (omega arith) refl (omega arith) (omega arith, tt)
      (record { sized = refl; bytes = text-IsSector.bytes }, tt)
      (record { buff_size = refl; compress_buff_size = refl }) (omega arith)

-- A boot sector of a FAT volume, without a partition table.
abbrev pub boot : List ℕ
boot =
    replicate 11 0
    ++ (0x00 ∷ 0x02 ∷ 4 ∷ 1 ∷ 0 ∷ 2 ∷ 0x00 ∷ 0x02 ∷ 0x00 ∷ 0x80 ∷ 0xf8 ∷ 32 ∷ 0 ∷ 32 ∷ 0 ∷ 4 ∷ 0
        ∷ [])
    ++ replicate 26 0
    ++ (0x46 ∷ 0x41 ∷ 0x54 ∷ [])
    ++ replicate 453 0
    ++ (0x55 ∷ 0xaa ∷ [])

abbrev all_bytes : List ℕ → Bool
all_bytes [] = true
all_bytes (b ∷ rest) = leb b 255 && all_bytes rest

all_bytes-All : (xs : List ℕ) → all_bytes xs ≡ true → All IsByte xs
all_bytes-All [] h = tt
all_bytes-All (b ∷ rest) h = (ground arith, all_bytes-All rest (ground arith))

pub boot-IsSector : IsSector boot
unfolding compress compress_loop pack_byte pack_zero pack_literal pack_end emit
boot-IsSector = record { sized = refl; bytes = all_bytes-All boot refl; tame = omega arith }

pub boot-kind : boot_kind boot ≡ 0
unfolding boot_kind
boot-kind = refl

pub boot-bpb : fill_bpb boot geometry ≡ (true, geometry)
unfolding fill_bpb
boot-bpb = refl

abbrev line : List ℕ
line = 65 ∷ 32 ∷ 47 ∷ 68 ∷ 32 ∷ 47 ∷ 66 ∷ 61 ∷ 51 ∷ []

parse_options-ends_example :
    (r : Bool × Options) × (parse_options line (record { debug = false; portbase = 1 }) ≡ some r)
    × (parse_loop
          (3 + suc (length line))
          (spanwhite (skip_name line))
          (record { debug = false; portbase = 1 })
        ≡ some r)
parse_options-ends_example = parse_options-ends 3 line (record { debug = false; portbase = 1 })
