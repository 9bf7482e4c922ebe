-- ===== src/Session/Read.antt =====
-- LPTRead over the cable returns the sectors of the disk.
use lptstore.Prelude.{
  ℕ, zero, suc, ◌+◌, ◌-◌, ◌*◌, ◌/◌, ◌%◌, ◌^◌, ◌<◌, ◌≡◌, ◌≢◌, refl, ◌∙◌, false, List, [], ◌∷◌, ◌++◌,
  length, arith, some, overlay, drop, take-overlay_sized, length-overlay, length-drop, ltb, lt→ltb,
}
use lptstore.Compress.{compress}
use lptstore.Compress.RoundTrip.{decompress-compress, decompress-packed}
use lptstore.Compress.Bounds.{compress_bounds}
use native.Mathlib.Decide.{ℕ_discrete}
use lptstore.Comms.{hasbyte, readbyte}
use lptstore.Comms.Laws.{after}
use lptstore.Disk.{Disk}
use lptstore.Protocol.{Pico, done, lptprotocol_task, run_command}
use lptstore.Protocol.Sectors.{
  IsSector, reply, reply_plain, reply_packed, length-reply, IsReady, read_request, read_block-reply,
}
use lptstore.Host.{
  ok, read_byte, read_many, write_many, read_packed, read_round, lpt_read, compress_room, res_ok,
}
use lptstore.Host.Laws.{>>=-ok}
use lptstore.Session.{Cable, link_of, cable_peer, answer_room}
use lptstore.Session.Laws.{write_many-sends, read_many-waiting, read_byte-waiting, read_byte-served}

module _ (D : Disk) where
  -- The target after it has served `sector` from `disk`.
  abbrev pub served : Pico D → List ℕ → D.State → Pico D
  served p sector disk = record {
    buff = sector;
    compress_buff = overlay (compress sector).written p.compress_buff;
    disk = disk;
  }

  abbrev pub idle : Pico D → Cable D
  idle p = record { pico = p; inbox = []; outbox = [] }

  task_read :
      (p : Pico D) (k unit lbn : ℕ) (sector : List ℕ) (r : ℕ) (disk : D.State)
      → IsReady D p
      → D.read_sector unit lbn (overlay (read_request D unit lbn) p.buff) p.disk ≡ (r, sector, disk)
      → r % 256 ≡ 0
      → IsSector sector
      → answer_room ≡ length (reply sector) + k
      → lptprotocol_task D p (link_of (0x03 ∷ read_request D unit lbn))
        ≡ done (served p sector disk) (after (reply sector) k (link_of []))
  unfolding lptprotocol_task hasbyte readbyte run_command
  task_read p k unit lbn sector r disk ready read good is room =
      read_block-reply D p (link_of []) k unit lbn [] sector r disk ready read good is room

  -- The rest of a round, after the first byte of the answer.
  read_packed-sector :
      (sector : List ℕ) (p : Pico D)
      → IsSector sector
      → (compress sector).ret ≢ 0
      → read_packed (cable_peer D) (record {
        pico = p;
        inbox = [];
        outbox =
            ((compress sector).ret / 2 ^ 8)
            ∷ ((compress sector).ret % 256)
            ∷ (compress sector).written;
      })
        ≡ ok sector (idle p)
  unfolding read_packed
  read_packed-sector sector p is packed =
      >>=-ok (read_byte (cable_peer D)) _ (read_byte-waiting D _ _ [] p)
      ∙ >>=-ok (read_byte (cable_peer D)) _ (read_byte-waiting D _ _ [] p)
      ∙ rw (count, lt→ltb _ 0x8000 short, within)
          (>>=-ok (read_many (cable_peer D) (compress sector).ret) _
              (read_many-waiting D (compress sector).written _ p sent)
            ∙ rw (decompress-packed sector is.sized packed))
    where
      count :
          (compress sector).ret / 2 ^ 8 * 2 ^ 8 + (compress sector).ret % 256
          ≡ (compress sector).ret
      count = omega arith

      short : (compress sector).ret < 0x8000
      short = omega (arith, compress_bounds sector)

      within : ltb compress_room (compress sector).ret ≡ false
      within = ground (arith, compress_bounds sector)

      sent : length (compress sector).written ≡ (compress sector).ret
      sent = (decompress-compress sector sector is.sized is.sized packed).0

  pub served-IsReady :
      (p : Pico D) (sector : List ℕ) (disk : D.State)
      → IsSector sector
      → IsReady D p
      → IsReady D (served p sector disk)
  served-IsReady p sector disk is ready = record {
    buff_size = is.sized;
    compress_buff_size = omega (
      arith,
      is.tame,
      ready.compress_buff_size,
      length-overlay (compress sector).written p.compress_buff,
    );
  }

  pub read_round-sector :
      (p : Pico D) (unit lbn : ℕ) (sector : List ℕ) (r : ℕ) (disk : D.State)
      → IsReady D p
      → unit < 256
      → lbn < 2 ^ 16
      → D.read_sector unit lbn (overlay (read_request D unit lbn) p.buff) p.disk ≡ (r, sector, disk)
      → r % 256 ≡ 0
      → IsSector sector
      → read_round (cable_peer D) unit lbn (idle p) ≡ ok (some sector) (idle (served p sector disk))
  unfolding read_round
  read_round-sector p unit lbn sector r disk ready hu hl read good is =
      >>=-ok (write_many (cable_peer D) (0x03 ∷ read_request D unit lbn)) _
        (write_many-sends D (0x03 ∷ read_request D unit lbn) (idle p) (omega arith))
      ∙ (elim (ℕ_discrete (compress sector).ret 0) [
        | yes plain ↦
            >>=-ok (read_byte (cable_peer D)) _ (answered 0x00 sector (reply_plain sector plain))
            ∙ >>=-ok (read_many (cable_peer D) 512) _ (read_many-waiting D sector 512 q is.sized)
        | no packed ↦
            >>=-ok (read_byte (cable_peer D)) _ (answered 0x02 _ (reply_packed sector packed))
            ∙ >>=-ok (read_packed (cable_peer D)) _ (read_packed-sector sector q is packed)
      ])
    where
      q : Pico D
      q = served p sector disk

      k : ℕ
      k = answer_room - length (reply sector)

      answered :
          (x : ℕ) (rest : List ℕ)
          → reply sector ≡ x ∷ rest
          → read_byte
              (cable_peer D)
              (record { pico = p; inbox = 0x03 ∷ read_request D unit lbn; outbox = [] })
            ≡ ok x (record { pico = q; inbox = []; outbox = rest })
      answered x rest e =
          read_byte-served D x rest _ p q (after (reply sector) k (link_of []))
            (task_read p k unit lbn sector r disk ready read good is
              (omega (arith, length-reply sector is)))
            e

-- What a disk must do for its sectors to be read: `content` holds them, `Has` says which there are.
pub record Reads (D : Disk) (unit : ℕ) (content : ℕ → List ℕ) (IsGood : D.State → Type 0)
    (Has : ℕ → Type 0) : Type 0 where
  pub sector : (lba : ℕ) → Has lba → IsSector (content lba)
  pub reads :
      (lba : ℕ) (buff : List ℕ) (disk : D.State)
      → IsGood disk
      → Has lba
      → (disk' : D.State) × (D.read_sector unit lba buff disk ≡ (0, content lba, disk'))
        × IsGood disk'

-- `count` sectors from `lbn` on; the number is a WORD.
abbrev pub sectors : (ℕ → List ℕ) → ℕ → ℕ → List ℕ
sectors content zero lbn = []
sectors content (suc count) lbn = content lbn ++ sectors content count ((lbn + 1) % 2 ^ 16)

abbrev pub HasAll : (ℕ → Type 0) → ℕ → ℕ → Type 0
HasAll Has zero lbn = Unit
HasAll Has (suc count) lbn = Has lbn × HasAll Has count ((lbn + 1) % 2 ^ 16)

module _ (D : Disk) (unit : ℕ) (content : ℕ → List ℕ) {IsGood : D.State → Type 0} {Has : ℕ → Type 0}
    (laws : Reads D unit content IsGood Has) where
  -- Where the disk reads the sectors asked for without an error, and LPTCompress needs no more than
  -- 512 bytes for each, LPTRead over the cable to a target that is ready ends with RES_OK, fills the
  -- caller's memory of that many sectors with them, in order, and leaves no byte on the cable and the
  -- target ready for the next command.
  pub lpt_read-sectors :
      (count lbn : ℕ) (dest : List ℕ) (p : Pico D)
      → unit < 256
      → lbn < 2 ^ 16
      → HasAll Has count lbn
      → length dest ≡ count * 512
      → IsReady D p
      → IsGood p.disk
      → (q : Pico D) × (lpt_read (cable_peer D) count unit lbn dest (idle D p)
          ≡ ok (res_ok, sectors content count lbn) (idle D q))
        × IsReady D q
        × IsGood q.disk
  unfolding lpt_read
  lpt_read-sectors zero lbn [] p hu hl has size ready good = (p, refl, ready, good)
  lpt_read-sectors zero lbn (x ∷ dest) p hu hl has size ready good = absurd (omega arith)
  lpt_read-sectors (suc count) lbn dest p hu hl (here, later) size ready good =
      let (disk, read, good') =
        laws.reads lbn (overlay (read_request D unit lbn) p.buff) p.disk good here in
      let is = laws.sector lbn here in
      let q = served D p (content lbn) disk in
      let (q', rest, ready', good'') =
        lpt_read-sectors count ((lbn + 1) % 2 ^ 16) (drop 512 (overlay (content lbn) dest)) q hu
          (omega arith) later
          (omega (
            arith,
            is.sized,
            length-overlay (content lbn) dest,
            length-drop 512 (overlay (content lbn) dest),
          ))
          (served-IsReady D p (content lbn) disk is ready) good' in
      let run : lpt_read (cable_peer D) (suc count) unit lbn dest (idle D p)
          ≡ ok (res_ok, sectors content (suc count) lbn) (idle D q') =
        >>=-ok (read_round (cable_peer D) unit lbn) _
          (read_round-sector D p unit lbn (content lbn) 0 disk ready hu hl read refl is)
        ∙ rw (room dest is size) (
            >>=-ok (lpt_read (cable_peer D) count unit ((lbn + 1) % 2 ^ 16) _) _ rest
            ∙ rw (take-overlay_sized 512 (content lbn) dest is.sized)) in
      (q', run, ready', good'')
    where
      room :
          (dest : List ℕ)
          → IsSector (content lbn)
          → length dest ≡ suc count * 512
          → ltb (length dest) (length (content lbn)) ≡ false
      room dest is size = ground (arith, is.sized)
