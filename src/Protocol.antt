-- ===== src/Protocol.antt =====
-- lptprotocol_task of pico/lptprotocol.c: one command of the host over any disk behind disk.h.
pub mod Laws
pub mod Sectors
pub mod Writes
pub mod Cut
pub mod Replies
use lptstore.Prelude.{
  ℕ, zero, suc, ◌+◌, ◌-◌, ◌*◌, ◌/◌, ◌%◌, ◌^◌, Bool, true, false, List, [], ◌∷◌, ◌++◌, ◌==◌, ltb,
  if◌then◌else◌, Option, none, some, get_or, set, take, length, overlay,
}
use lptstore.Compress.{sector_size, compress, decompress, decompress_into}
use lptstore.Comms.{
  Link, hasbyte, readbyte, writebyte, Fill, got, late, overrun, readbytes, writebytes,
}
use lptstore.Disk.{Disk}

abbrev pub lpts_hello : ℕ
lpts_hello = 0x00

abbrev pub lpts_query_disks : ℕ
lpts_query_disks = 0x01

abbrev pub lpts_query_disk_caps : ℕ
lpts_query_disk_caps = 0x02

abbrev pub lpts_read_block : ℕ
lpts_read_block = 0x03

abbrev pub lpts_write_block : ℕ
lpts_write_block = 0x04

abbrev pub lpts_version_major : ℕ
lpts_version_major = 0

abbrev pub lpts_version_minor : ℕ
lpts_version_minor = 1

-- `buff[0] = w >> 24; buff[1] = (w >> 16) & 0xff; ...`
unfoldable pub put_word : ℕ → List ℕ → List ℕ
put_word w buff =
    set (set (set (set buff 0 (w / 2 ^ 24 % 256)) 1 (w / 2 ^ 16 % 256)) 2 (w / 2 ^ 8 % 256)) 3
      (w % 256)

-- The bytes at two and at four indices, the highest first. The shifted bytes do not overlap, so
-- `|` is a sum.
abbrev pub word_at : List ℕ → ℕ → ℕ
word_at buff i = get_or buff i 0 * 2 ^ 8 + get_or buff (i + 1) 0

abbrev pub long_at : List ℕ → ℕ → ℕ
long_at buff i = word_at buff i * 2 ^ 16 + word_at buff (i + 2)

-- `if (lptcomms_writebyte(b) < 0) break;`
unfoldable pub write_all : List ℕ → List ℕ → Link → Link
write_all [] bytes l = (writebytes bytes l).1
write_all (b ∷ header) bytes l =
    let (taken, l') = writebyte b l in
    let more = write_all header bytes l' in if taken then more else l'

module _ (D : Disk) where
  -- The static buffers of lptprotocol.c, and the disk behind it.
  pub record Pico : Type 0 where
    pub buff : List ℕ
    pub compress_buff : List ℕ
    pub disk : D.State

  -- `fault` is a write past the end of a buffer, where C defines nothing.
  pub data Outcome : Type 0 where
    done : Pico → Link → Outcome
    fault : Outcome

  unfoldable pub hello : Pico → Link → Outcome
  hello p l =
      let buff = set (set p.buff 0 lpts_version_major) 1 lpts_version_minor in
      done (record p { buff = buff }) (writebytes (take 2 buff) l).1

  unfoldable pub query_disks : Pico → Link → Outcome
  query_disks p l =
      let buff = put_word (D.get_drives p.disk) p.buff in
      done (record p { buff = buff }) (writebytes (take 4 buff) l).1

  unfoldable pub send_caps : Pico → Link → Outcome
  send_caps p l =
      let buff = put_word (D.get_blocks (get_or p.buff 0 0) p.disk) p.buff in
      done (record p { buff = buff }) (writebytes (take 4 buff) l).1

  unfoldable pub query_disk_caps : Pico → Link → Outcome
  query_disk_caps p l = elim (readbytes 1 p.buff l) [
    | late buff l' ↦ done (record p { buff = buff }) l'
    | got buff l' ↦ send_caps (record p { buff = buff }) l'
    | overrun ↦ fault
  ]

  unfoldable pub send_sector : Pico → Link → Outcome
  send_sector p l =
      let packed = compress p.buff in
      let c = packed.ret in
      let zipped = overlay packed.written p.compress_buff in
      if ltb (length p.compress_buff) (length packed.written)
      then fault
      else if c == 0
      then done (record p { compress_buff = zipped }) (write_all (0x00 ∷ []) (take 512 p.buff) l)
      else done (record p { compress_buff = zipped })
          (write_all (0x02 ∷ (c / 2 ^ 8) ∷ (c % 256) ∷ []) (take c zipped) l)

  unfoldable pub read_block : Pico → Link → Outcome
  read_block p l = elim (readbytes 5 p.buff l) [
    | late buff l' ↦ done (record p { buff = buff }) l'
    | got request l' ↦
        let (r, buff, disk) =
          D.read_sector (get_or request 0 0) (long_at request 1) request p.disk in
        let q = record p { buff = buff; disk = disk } in
        if r % 256 == 0 then send_sector q l' else done q (writebyte 0x01 l').1
    | overrun ↦ fault
  ]

  -- `r = disk_write_sector(drv, lba, buff); lptcomms_writebyte(r);`
  unfoldable pub store_sector : ℕ → ℕ → Pico → Link → Outcome
  store_sector drv lba p l =
      let (r, disk) = D.write_sector drv lba p.buff p.disk in
      done (record p { disk = disk }) (writebyte (r % 256) l).1

  unfoldable pub take_plain : ℕ → ℕ → Pico → Link → Outcome
  take_plain drv lba p l = elim (readbytes 512 p.buff l) [
    | late buff l' ↦ done (record p { buff = buff }) l'
    | got buff l' ↦ store_sector drv lba (record p { buff = buff }) l'
    | overrun ↦ fault
  ]

  unfoldable pub take_packed : ℕ → ℕ → ℕ → Pico → Link → Outcome
  take_packed drv lba compressed p l = elim (readbytes compressed p.compress_buff l) [
    | late zipped l' ↦ done (record p { compress_buff = zipped }) l'
    | got zipped l' ↦
        let packet = take compressed zipped in
        if ltb (length p.buff) (length (decompress packet).written)
        then fault
        else store_sector drv lba
            (record p { buff = decompress_into p.buff packet; compress_buff = zipped }) l'
    | overrun ↦ fault
  ]

  unfoldable pub write_block : Pico → Link → Outcome
  write_block p l = elim (readbytes 5 p.buff l) [
    | late buff l' ↦ done (record p { buff = buff }) l'
    | got request l' ↦
        let drv = get_or request 0 0 in
        let lba = word_at request 3 in
        let compressed = word_at request 1 in
        let q = record p { buff = request } in
        if compressed == 0 then take_plain drv lba q l' else take_packed drv lba compressed q l'
    | overrun ↦ fault
  ]

  -- The `switch`; 0xff and any other command do nothing.
  unfoldable pub run_command : ℕ → Pico → Link → Outcome
  run_command cmd p l =
      if cmd == lpts_hello
      then hello p l
      else if cmd == lpts_query_disks
      then query_disks p l
      else if cmd == lpts_query_disk_caps
      then query_disk_caps p l
      else if cmd == lpts_read_block
      then read_block p l
      else if cmd == lpts_write_block
      then write_block p l
      else done p l

  -- A timeout gives the command (uint8_t)-1.
  unfoldable pub lptprotocol_task : Pico → Link → Outcome
  lptprotocol_task p l =
      if hasbyte l
      then (let (r, l') = readbyte l in
          elim r [
            | none ↦ done p l'
            | some cmd ↦ if cmd == 0xff then done p l' else run_command cmd p l'
          ])
      else done p l
