-- ===== src/Protocol/Writes.antt =====
-- What the target does with a sector that is sent to it.
use lptstore.Prelude.{
  ℕ, suc, ◌+◌, ◌*◌, ◌/◌, ◌%◌, ◌^◌, ◌≤◌, ◌≡◌, ◌≢◌, ap, ◌∙◌, false, List, [], ◌∷◌, length, overlay,
  overlay_whole, length-overlay, take-overlay_sized, All, arith, ◌==◌, ltb, if◌then◌else◌,
}
use lptstore.Compress.{IsByte, sector_size, compress, decompress, decompress_into}
use lptstore.Compress.RoundTrip.{decompress-compress, decompress-packed}
use lptstore.Comms.{Link, got, readbytes}
use lptstore.Comms.Laws.{after, readbytes-got, readbytes-all, writebyte-taken}
use lptstore.Protocol.{Pico, done, store_sector, take_plain, take_packed, write_block}
use lptstore.Protocol.Sectors.{IsReady}
use lptstore.Disk.{Disk}
use native.Mathlib.Decide.{ℕ_discrete}
use lptstore.Compress.Bounds.{compress_bounds}

-- What the host sends behind LPTS_WRITE_BLOCK and the unit.
unfoldable pub payload : ℕ → List ℕ → List ℕ
payload lbn sector =
    let c = (compress sector).ret in
    if c == 0
    then 0x00 ∷ 0x00 ∷ (lbn / 2 ^ 8) ∷ (lbn % 256) ∷ sector
    else (c / 2 ^ 8) ∷ (c % 256) ∷ (lbn / 2 ^ 8) ∷ (lbn % 256) ∷ (compress sector).written

pub payload_plain :
    (lbn : ℕ) (sector : List ℕ)
    → (compress sector).ret ≡ 0
    → payload lbn sector ≡ 0x00 ∷ 0x00 ∷ (lbn / 2 ^ 8) ∷ (lbn % 256) ∷ sector
unfolding payload
payload_plain lbn sector h = rw h

pub payload_packed :
    (lbn : ℕ) (sector : List ℕ)
    → (compress sector).ret ≢ 0
    → payload lbn sector
      ≡ ((compress sector).ret / 2 ^ 8)
        ∷ ((compress sector).ret % 256)
        ∷ (lbn / 2 ^ 8)
        ∷ (lbn % 256)
        ∷ (compress sector).written
unfolding payload
payload_packed lbn sector h = ground arith

-- A block of 512 bytes.
pub record IsBlock (sector : List ℕ) : Type 0 where
  pub sized : length sector ≡ sector_size
  pub bytes : All IsByte sector

module _ (D : Disk) where
  -- The target after it has stored `sector`.
  unfoldable pub stored : Pico D → List ℕ → D.State → Pico D
  stored p sector disk = record {
    buff = sector;
    compress_buff =
        if (compress sector).ret == 0
        then p.compress_buff
        else overlay (compress sector).written p.compress_buff;
    disk = disk;
  }

  store_sector-taken :
      (unit lbn k : ℕ) (p : Pico D) (l : Link) (disk : D.State)
      → D.write_sector unit lbn p.buff p.disk ≡ (0, disk)
      → l.room ≡ suc k
      → store_sector D unit lbn p l ≡ done (record p { disk = disk }) (after (0 ∷ []) k l)
  unfolding store_sector
  store_sector-taken unit lbn k p l disk stores room =
      rw (stores, writebyte-taken 0 k l room (omega arith))

  take_plain-stores :
      (unit lbn k : ℕ) (p : Pico D) (l : Link) (sector : List ℕ) (disk : D.State)
      → IsBlock sector
      → length p.buff ≡ 512
      → D.write_sector unit lbn sector p.disk ≡ (0, disk)
      → l.room ≡ suc k
      → take_plain D unit lbn p (record l { incoming = sector })
        ≡ done
            (record p { buff = sector; disk = disk })
            (after (0 ∷ []) k (record l { incoming = [] }))
  unfolding take_plain
  take_plain-stores unit lbn k p l sector disk is size stores room =
      rw (asked, take_plain)
        (store_sector-taken unit lbn k (record p { buff = sector }) (record l { incoming = [] })
          disk stores room)
    where
      asked :
          readbytes 512 p.buff (record l { incoming = sector })
          ≡ got sector (record l { incoming = [] })
      asked =
          readbytes-all sector p.buff 512 l is.sized (omega arith)
          ∙ ap (λ b. got b (record l { incoming = [] }))
              (overlay_whole sector p.buff (omega (arith, is.sized)))

  take_packed-stores :
      (unit lbn k : ℕ) (p : Pico D) (l : Link) (sector : List ℕ) (disk : D.State)
      → IsBlock sector
      → (compress sector).ret ≢ 0
      → IsReady D p
      → D.write_sector unit lbn sector p.disk ≡ (0, disk)
      → l.room ≡ suc k
      → take_packed D unit lbn
          (compress sector).ret
          p
          (record l { incoming = (compress sector).written })
        ≡ done
            (record {
              buff = sector;
              compress_buff = overlay (compress sector).written p.compress_buff;
              disk = disk;
            })
            (after (0 ∷ []) k (record l { incoming = [] }))
  unfolding take_packed
  take_packed-stores unit lbn k p l sector disk is packed ready stores room =
      rw (asked, take_packed)
        (rw (take-overlay_sized _ (compress sector).written p.compress_buff sent, whole, no_fault)
          (unfold decompress_into in
            rw (whole, overlay_whole sector p.buff (omega (arith, is.sized, ready.buff_size)))
              (store_sector-taken unit lbn k
                (record {
                  buff = sector;
                  compress_buff = overlay (compress sector).written p.compress_buff;
                  disk = p.disk;
                })
                (record l { incoming = [] }) disk stores room)))
    where
      sent : length (compress sector).written ≡ (compress sector).ret
      sent = (decompress-compress sector sector is.sized is.sized packed).0

      whole : decompress (compress sector).written ≡ record { written = sector; ret = sector_size }
      whole = decompress-packed sector is.sized packed

      no_fault : ltb (length p.buff) (length sector) ≡ false
      no_fault = ground (arith, is.sized, ready.buff_size)

      short : length (compress sector).written ≤ length p.compress_buff
      short = omega (arith, sent, compress_bounds sector, ready.compress_buff_size)

      asked :
          readbytes
            (compress sector).ret
            p.compress_buff
            (record l { incoming = (compress sector).written })
          ≡ got (overlay (compress sector).written p.compress_buff) (record l { incoming = [] })
      asked =
          readbytes-all (compress sector).written p.compress_buff _ l sent
            (omega (arith, short, sent))

  request_got :
      (unit c lbn : ℕ) (rest : List ℕ) (p : Pico D) (l : Link)
      → IsReady D p
      → readbytes 5 p.buff (record l {
        incoming = unit ∷ (c / 2 ^ 8) ∷ (c % 256) ∷ (lbn / 2 ^ 8) ∷ (lbn % 256) ∷ rest;
      })
        ≡ got
            (overlay (unit ∷ (c / 2 ^ 8) ∷ (c % 256) ∷ (lbn / 2 ^ 8) ∷ (lbn % 256) ∷ []) p.buff)
            (record l { incoming = rest })
  request_got unit c lbn rest p l ready =
      readbytes-got (unit ∷ (c / 2 ^ 8) ∷ (c % 256) ∷ (lbn / 2 ^ 8) ∷ (lbn % 256) ∷ []) rest p.buff
        l (omega (arith, ready.buff_size))

  pub write_block-stores :
      (unit lbn k : ℕ) (p : Pico D) (l : Link) (sector : List ℕ) (disk : D.State)
      → IsBlock sector
      → IsReady D p
      → D.write_sector unit lbn sector p.disk ≡ (0, disk)
      → l.room ≡ suc k
      → write_block D p (record l { incoming = unit ∷ payload lbn sector })
        ≡ done (stored p sector disk) (after (0 ∷ []) k (record l { incoming = [] }))
  unfolding write_block payload stored
  write_block-stores unit lbn k p l sector disk is ready stores room =
      elim (ℕ_discrete (compress sector).ret 0) [
        | yes plain ↦ rw plain (
            rw (request_got unit 0 lbn sector p l ready, write_block)
              (rw lba (
                take_plain-stores unit lbn k
                  (record p {
                    buff = overlay (unit ∷ 0 ∷ 0 ∷ (lbn / 2 ^ 8) ∷ (lbn % 256) ∷ []) p.buff;
                  })
                  l sector disk is (size 0) stores room)))
        | no packed ↦ rw (differs packed) (
            rw (request_got unit (compress sector).ret lbn _ p l ready, write_block)
              (rw (lba, count, differs packed)
                (take_packed-stores unit lbn k
                  (record p {
                    buff =
                        overlay
                          (unit
                            ∷ ((compress sector).ret / 2 ^ 8)
                            ∷ ((compress sector).ret % 256)
                            ∷ (lbn / 2 ^ 8)
                            ∷ (lbn % 256)
                            ∷ [])
                          p.buff;
                  })
                  l sector disk is packed
                  (record {
                    buff_size = size (compress sector).ret;
                    compress_buff_size = ready.compress_buff_size;
                  })
                  stores room)))
      ]
    where
      lba : lbn / 2 ^ 8 * 2 ^ 8 + lbn % 256 ≡ lbn
      lba = omega arith

      count :
          (compress sector).ret / 2 ^ 8 * 2 ^ 8 + (compress sector).ret % 256
          ≡ (compress sector).ret
      count = omega arith

      differs : (compress sector).ret ≢ 0 → ((compress sector).ret == 0) ≡ false
      differs h = ground arith

      size :
          (c : ℕ)
          → length
              (overlay (unit ∷ (c / 2 ^ 8) ∷ (c % 256) ∷ (lbn / 2 ^ 8) ∷ (lbn % 256) ∷ []) p.buff)
            ≡ 512
      size c = omega (
        arith,
        ready.buff_size,
        length-overlay (unit ∷ (c / 2 ^ 8) ∷ (c % 256) ∷ (lbn / 2 ^ 8) ∷ (lbn % 256) ∷ []) p.buff,
      )
