-- ===== src/Session/Write.antt =====
-- LPTWrite over the cable stores the sectors on the disk, and LPTRead gives them back.
use lptstore.Prelude.{
  ℕ, ◌^◌, ◌<◌, ◌≡◌, ◌≢◌, refl, ◌∙◌, false, List, [], ◌∷◌, All, arith, take, length-overlay, ◌==◌,
  take_whole,
}
use lptstore.Compress.{IsByte, compress}
use lptstore.Compress.Bounds.{compress_bounds}
use lptstore.Compress.RoundTrip.{decompress-compress}
use lptstore.Compress.Encoding.{compress-IsPacked, encode-IsByte}
use native.Mathlib.Decide.{ℕ_discrete}
use lptstore.Comms.{hasbyte, readbyte}
use lptstore.Comms.Laws.{after}
use lptstore.Disk.{Disk}
use lptstore.Protocol.{Pico, done, lptprotocol_task, run_command}
use lptstore.Protocol.Sectors.{IsReady}
use lptstore.Protocol.Writes.{
  IsBlock, payload, payload_plain, payload_packed, stored, write_block-stores,
}
use lptstore.Host.{ok, write_many, write_round, write_payload}
use lptstore.Host.Laws.{>>=-ok}
use lptstore.Session.{Cable, link_of, cable_peer}
use lptstore.Session.Laws.{sends, write_many-sends, read_byte-served}
use lptstore.Session.Read.{idle}

module _ (D : Disk) where
  pub stored-IsReady :
      (p : Pico D) (sector : List ℕ) (disk : D.State)
      → IsBlock sector
      → IsReady D p
      → IsReady D (stored D p sector disk)
  unfolding stored
  stored-IsReady p sector disk is ready = elim (ℕ_discrete (compress sector).ret 0) [
    | yes plain ↦
        rw plain (record { buff_size = is.sized; compress_buff_size = ready.compress_buff_size })
    | no packed ↦
        let differs : ((compress sector).ret == 0) ≡ false = ground arith in
        rw differs (record {
          buff_size = is.sized;
          compress_buff_size = omega (
            arith,
            ready.compress_buff_size,
            compress_bounds sector,
            (decompress-compress sector sector is.sized is.sized packed).0,
            length-overlay (compress sector).written p.compress_buff,
          );
        })
  ]

  task_write :
      (p : Pico D) (unit lbn : ℕ) (sector : List ℕ) (disk : D.State)
      → IsBlock sector
      → IsReady D p
      → D.write_sector unit lbn sector p.disk ≡ (0, disk)
      → lptprotocol_task D p (link_of (0x04 ∷ unit ∷ payload lbn sector))
        ≡ done (stored D p sector disk) (after (0 ∷ []) 1023 (link_of []))
  unfolding lptprotocol_task hasbyte readbyte run_command
  task_write p unit lbn sector disk is ready stores =
      write_block-stores D unit lbn 1023 p (link_of []) sector disk is ready stores refl

  payload-IsByte :
      (lbn : ℕ) (sector : List ℕ) → lbn < 2 ^ 16 → IsBlock sector → All IsByte (payload lbn sector)
  payload-IsByte lbn sector hl is = elim (ℕ_discrete (compress sector).ret 0) [
    | yes plain ↦
        rw (payload_plain lbn sector plain)
          (omega arith, (omega arith, (omega arith, (omega arith, is.bytes))))
    | no packed ↦ rw (payload_packed lbn sector packed) (
      omega (arith, compress_bounds sector),
      (
        omega arith,
        (
          omega arith,
          (
            omega arith,
            rw ((compress-IsPacked sector packed).written)
                (encode-IsByte sector 0 (omega arith) is.bytes),
          ),
        ),
      ),
    )
  ]

  write_payload-sends :
      (lbn : ℕ) (sector : List ℕ) (s : Cable D)
      → lbn < 2 ^ 16
      → IsBlock sector
      → write_payload (cable_peer D) lbn sector s ≡ ok tt (sends D s (payload lbn sector))
  unfolding write_payload
  write_payload-sends lbn sector s hl is = elim (ℕ_discrete (compress sector).ret 0) [
    | yes plain ↦ rw (plain, ← payload_plain lbn sector plain) sent
    | no packed ↦ rw (differs packed, exact packed, ← payload_packed lbn sector packed) sent
  ]
    where
      sent :
          write_many (cable_peer D) (payload lbn sector) s ≡ ok tt (sends D s (payload lbn sector))
      sent = write_many-sends D (payload lbn sector) s (payload-IsByte lbn sector hl is)

      differs : (compress sector).ret ≢ 0 → ((compress sector).ret == 0) ≡ false
      differs h = ground arith

      exact :
          (compress sector).ret ≢ 0
          → take (compress sector).ret (compress sector).written ≡ (compress sector).written
      exact h = take_whole _ _ ((decompress-compress sector sector is.sized is.sized h).0)

  pub write_round-stores :
      (p : Pico D) (unit lbn : ℕ) (sector : List ℕ) (disk : D.State)
      → IsBlock sector
      → IsReady D p
      → unit < 256
      → lbn < 2 ^ 16
      → D.write_sector unit lbn sector p.disk ≡ (0, disk)
      → write_round (cable_peer D) unit lbn sector (idle D p)
        ≡ ok 0 (idle D (stored D p sector disk))
  unfolding write_round
  write_round-stores p unit lbn sector disk is ready hu hl stores =
      >>=-ok (write_many (cable_peer D) (0x04 ∷ unit ∷ [])) _
        (write_many-sends D (0x04 ∷ unit ∷ []) (idle D p) (omega arith))
      ∙ >>=-ok (write_payload (cable_peer D) lbn sector) _
          (write_payload-sends lbn sector (sends D (idle D p) (0x04 ∷ unit ∷ [])) hl is)
      ∙ read_byte-served D 0 [] (0x04 ∷ unit ∷ payload lbn sector) p (stored D p sector disk)
          (after (0 ∷ []) 1023 (link_of [])) (task_write p unit lbn sector disk is ready stores)
          refl
