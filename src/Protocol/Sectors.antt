-- ===== src/Protocol/Sectors.antt =====
-- What the target answers to a read request, and what it does with a sector that is sent to it.
use lptstore.Prelude.{
  ℕ, ◌+◌, ◌/◌, ◌%◌, ◌^◌, ◌≤◌, ◌<◌, ◌≡◌, ◌≢◌, true, false, List, [], ◌∷◌, ◌++◌, length, overlay,
  take, take-overlay, take_whole, All, arith, ◌==◌, ltb, if◌then◌else◌, Bool-cases, inl, inr,
}
use lptstore.Compress.{IsByte, sector_size, compress}
use lptstore.Compress.Encoding.{encode, compress-IsPacked, encode-IsByte}
use lptstore.Comms.{Link, got, readbytes}
use lptstore.Comms.Laws.{after, readbytes-got}
use lptstore.Protocol.{Pico, done, send_sector, read_block, long_at}
use lptstore.Protocol.Laws.{write_all-taken}
use lptstore.Disk.{Disk}
use native.Mathlib.Decide.{ℕ_discrete}

-- A sector of the disk, as the protocol can carry it: LPTCompress stays within its 512 bytes.
pub record IsSector (sector : List ℕ) : Type 0 where
  pub sized : length sector ≡ sector_size
  pub bytes : All IsByte sector
  pub tame : length (compress sector).written ≤ sector_size

-- The bytes of the answer to a read that succeeds.
unfoldable pub reply : List ℕ → List ℕ
reply sector =
    let c = (compress sector).ret in
    if c == 0 then 0x00 ∷ sector else 0x02 ∷ (c / 2 ^ 8) ∷ (c % 256) ∷ (compress sector).written

module _ (D : Disk) where
  pub record IsReady (p : Pico D) : Type 0 where
    pub buff_size : length p.buff ≡ sector_size
    pub compress_buff_size : length p.compress_buff ≡ sector_size

  pub send_sector-reply :
      (p : Pico D) (l : Link) (k : ℕ)
      → IsSector p.buff
      → IsReady p
      → l.room ≡ length (reply p.buff) + k
      → send_sector D p l
        ≡ done
            (record p { compress_buff = overlay (compress p.buff).written p.compress_buff })
            (after (reply p.buff) k l)
  unfolding send_sector reply
  send_sector-reply p l k sector ready room = elim (Bool-cases ((compress p.buff).ret == 0)) [
    | inl plain ↦ rw (
      no_fault,
      plain,
      take_whole 512 p.buff sector.sized,
      write_all-taken (0x00 ∷ []) p.buff k l (ground arith) (omega arith) sector.bytes,
    )
    | inr packed ↦
        let z = compress-IsPacked p.buff (ground arith) in
        let short : (compress p.buff).ret < 512 = omega (arith, z.ret, z.short) in
        let exact : take (compress p.buff).ret (overlay (compress p.buff).written p.compress_buff)
            ≡ (compress p.buff).written =
          rw (z.ret, z.written) (take-overlay (encode p.buff 0) p.compress_buff) in
        rw (
          no_fault,
          packed,
          exact,
          write_all-taken
              (0x02 ∷ ((compress p.buff).ret / 2 ^ 8) ∷ ((compress p.buff).ret % 256) ∷ [])
              (compress p.buff).written k l (ground arith) (omega arith)
              (rw z.written (encode-IsByte p.buff 0 (omega arith) sector.bytes)),
        )
  ]
    where
      no_fault : ltb (length p.compress_buff) (length (compress p.buff).written) ≡ false
      no_fault = ground (arith, sector.tame, ready.compress_buff_size)

  -- The bytes behind LPTS_READ_BLOCK.
  abbrev pub read_request : ℕ → ℕ → List ℕ
  read_request unit lbn = unit ∷ 0x00 ∷ 0x00 ∷ (lbn / 2 ^ 8) ∷ (lbn % 256) ∷ []

  pub read_block-reply :
      (p : Pico D) (l : Link) (k unit lbn : ℕ) (rest sector : List ℕ) (r : ℕ) (disk : D.State)
      → IsReady p
      → D.read_sector unit lbn (overlay (read_request unit lbn) p.buff) p.disk ≡ (r, sector, disk)
      → r % 256 ≡ 0
      → IsSector sector
      → l.room ≡ length (reply sector) + k
      → read_block D p (record l { incoming = read_request unit lbn ++ rest })
        ≡ done
            (record {
              buff = sector;
              compress_buff = overlay (compress sector).written p.compress_buff;
              disk = disk;
            })
            (after (reply sector) k (record l { incoming = rest }))
  unfolding read_block
  read_block-reply p l k unit lbn rest sector r disk ready read good ok room =
      rw (asked, read_block, lba, read, same)
        (send_sector-reply q (record l { incoming = rest }) k ok
          (record { buff_size = ok.sized; compress_buff_size = ready.compress_buff_size }) room)
    where
      request : List ℕ
      request = overlay (read_request unit lbn) p.buff

      asked :
          readbytes 5 p.buff (record l { incoming = read_request unit lbn ++ rest })
          ≡ got request (record l { incoming = rest })
      asked = readbytes-got (read_request unit lbn) rest p.buff l (omega (arith, ready.buff_size))

      lba : long_at request 1 ≡ lbn
      lba = omega arith

      same : (r % 256 == 0) ≡ true
      same = ground arith

      q : Pico D
      q = record { buff = sector; compress_buff = p.compress_buff; disk = disk }

pub reply_plain : (sector : List ℕ) → (compress sector).ret ≡ 0 → reply sector ≡ 0x00 ∷ sector
unfolding reply
reply_plain sector h = rw h

pub reply_packed :
    (sector : List ℕ)
    → (compress sector).ret ≢ 0
    → reply sector
      ≡ 0x02
        ∷ ((compress sector).ret / 2 ^ 8)
        ∷ ((compress sector).ret % 256)
        ∷ (compress sector).written
unfolding reply
reply_packed sector h = ground arith

pub length-reply : (sector : List ℕ) → IsSector sector → length (reply sector) ≤ 515
length-reply sector is = elim (ℕ_discrete (compress sector).ret 0) [
  | yes plain ↦ rw (reply_plain sector plain) (omega (arith, is.sized))
  | no packed ↦ rw (reply_packed sector packed) (omega (arith, is.tame))
]
