-- ===== src/Examples/Cable.antt =====
-- The driver and the target with the fake disk.
use lptstore.Prelude.{
  ℕ, zero, suc, ◌+◌, ◌≤◌, ◌<◌, ◌≡◌, refl, List, [], ◌∷◌, All, replicate, arith, false, length,
}
use lptstore.Compress.{
  IsByte, compress, compress_loop, pack_byte, pack_zero, pack_literal, pack_end, emit,
}
use lptstore.Protocol.{Pico}
use lptstore.Protocol.Sectors.{IsSector}
use lptstore.Host.{ok, lpt_read, lpt_write, res_ok}
use lptstore.Session.{cable_peer}
use lptstore.Session.Read.{idle, Reads}
use lptstore.Session.ReadBack.{lpt_read-lpt_write}
use lptstore.Protocol.Cut.{IsQuiet, lptprotocol_task-cut}
use lptstore.Protocol.Replies.{lptprotocol_task-answers}
use lptstore.Protocol.{
  done, lptprotocol_task, lpts_write_block, lpts_read_block, run_command, read_block, send_sector,
  write_all,
}
use lptstore.Comms.{Link, hasbyte, readbyte, readbytes, writebyte, writebytes}
use lptstore.FakeLpt as FakeLpt
use lptstore.DiskFake.{Block, disk_fake, get_block, fresh_sector}
use lptstore.DiskFake.Laws.{fake_store}

abbrev pub target : Pico disk_fake
target = record { buff = replicate 512 0; compress_buff = replicate 512 0; disk = [] }

abbrev pub text : List ℕ
text = 0x48 ∷ 0x69 ∷ replicate 510 0

All-zeros : (n : ℕ) → All IsByte (replicate n 0)
All-zeros zero = tt
All-zeros (suc n) = (omega arith, All-zeros n)

pub text-IsSector : IsSector text
unfolding compress compress_loop pack_byte pack_zero pack_literal pack_end emit
text-IsSector = record {
  sized = refl;
  bytes = (omega arith, (omega arith, All-zeros 510));
  tame = omega arith;
}

lpt_read-lpt_write_example :
    (q q' : Pico disk_fake) × (lpt_write (cable_peer disk_fake) 1 2 17 text (idle disk_fake target)
      ≡ ok res_ok (idle disk_fake q))
    × (lpt_read (cable_peer disk_fake) 1 2 17 (replicate 512 9) (idle disk_fake q)
        ≡ ok (res_ok, text) (idle disk_fake q'))
lpt_read-lpt_write_example =
    lpt_read-lpt_write disk_fake 2 (fake_store 2) 1 17 5 text (replicate 512 9) target (omega arith)
      (omega arith) (omega arith) (omega arith, tt) refl refl (text-IsSector, tt)
      (record { buff_size = refl; compress_buff_size = refl }) (omega arith)

pub zeros-IsSector : IsSector (replicate 512 0)
unfolding compress compress_loop pack_byte pack_zero pack_literal pack_end emit
zeros-IsSector = record { sized = refl; bytes = All-zeros 512; tame = omega arith }

pub fresh_zeros :
    (lba : ℕ)
    → 68 < lba
    → ◌≡◌ {A = ℕ × List ℕ × List Block} (0, get_block 3 lba [], []) (0, replicate 512 0, [])
unfolding get_block fresh_sector
fresh_zeros lba h = ground arith

-- The sectors of a fresh fake disk that are all zeros.
abbrev pub fresh_reads :
    Reads disk_fake 3 (λ _. replicate 512 0) (λ blocks. blocks ≡ []) (λ lba. 68 < lba)
fresh_reads = record {
  sector = λ lba h. zeros-IsSector;
  reads = λ lba buff blocks e h. (blocks, rw e (fresh_zeros lba h), e);
}

abbrev listening : Link
listening = record { incoming = []; hanging = false; room = 1024; outgoing = [] }

-- Unit 2, not compressed, sector 17, and the first byte of it.
lptprotocol_task-cut_example : IsQuiet disk_fake target listening (
    lptprotocol_task disk_fake target
      (record listening { incoming = lpts_write_block ∷ 2 ∷ 0 ∷ 0 ∷ 0 ∷ 17 ∷ 0x48 ∷ [] }))
lptprotocol_task-cut_example =
    lptprotocol_task-cut disk_fake target listening (2 ∷ 0 ∷ 0 ∷ 0 ∷ 17 ∷ 0x48 ∷ []) (omega arith)
      (omega arith) (record { buff_size = refl; compress_buff_size = refl })

-- Sector 100 of unit 2, all zeros, is answered with four bytes behind the header.
abbrev reading : Link
reading = record listening { incoming = lpts_read_block ∷ 2 ∷ 0 ∷ 0 ∷ 0 ∷ 100 ∷ [] }

abbrev answered : Link
answered = record listening { room = 1017; outgoing = 2 ∷ 0 ∷ 4 ∷ 0 ∷ 0xff ∷ 0 ∷ 0xff ∷ [] }

abbrev zipped_target : Pico disk_fake
zipped_target = record target { compress_buff = 0 ∷ 0xff ∷ 0 ∷ 0xff ∷ replicate 508 0 }

read_answer : lptprotocol_task disk_fake target reading ≡ done zipped_target answered
unfolding lptprotocol_task hasbyte readbyte run_command read_block readbytes get_block fresh_sector
    send_sector write_all writebytes writebyte compress compress_loop pack_byte pack_zero
    pack_literal pack_end emit
read_answer = refl

lptprotocol_task-answers_example : length answered.outgoing ≤ length reading.outgoing + 514
lptprotocol_task-answers_example =
    lptprotocol_task-answers disk_fake target zipped_target reading answered read_answer
