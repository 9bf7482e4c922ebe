-- ===== src/Session/Refused.antt =====
-- LPTRead over the cable where the disk refuses a sector.
use lptstore.Prelude.{
  ℕ, zero, suc, ◌+◌, ◌*◌, ◌%◌, ◌^◌, ◌<◌, ◌≡◌, ◌≢◌, refl, ap, subst, ◌∙◌, false, List, [], ◌∷◌, ◌++◌,
  length, arith, none, overlay, drop, length-drop, length-overlay, take-overlay_sized, drop-overlay,
  ltb, ◌==◌,
}
use mathlib.Core.List.{append_assoc}
use lptstore.Comms.{hasbyte, readbyte, readbytes, got}
use lptstore.Comms.Laws.{after, readbytes-got, writebyte-taken}
use lptstore.Disk.{Disk}
use lptstore.Protocol.{Pico, done, lptprotocol_task, run_command, read_block, long_at}
use lptstore.Protocol.Sectors.{IsReady, IsSector, read_request}
use lptstore.Host.{ok, read_byte, write_many, read_round, lpt_read, res_error}
use lptstore.Host.Laws.{>>=-ok}
use lptstore.Session.{link_of, cable_peer}
use lptstore.Session.Laws.{write_many-sends, read_byte-served}
use lptstore.Session.Read.{idle, served, served-IsReady, read_round-sector, Reads, HasAll, sectors}

module _ (D : Disk) where
  -- The target after its disk has refused a sector; the buffer holds whatever the disk left there.
  abbrev pub refused : Pico D → List ℕ → D.State → Pico D
  refused p buff disk = record p { buff = buff; disk = disk }

  task_refused :
      (p : Pico D) (unit lbn : ℕ) (buff : List ℕ) (r : ℕ) (disk : D.State)
      → IsReady D p
      → D.read_sector unit lbn (overlay (read_request D unit lbn) p.buff) p.disk ≡ (r, buff, disk)
      → r % 256 ≢ 0
      → lptprotocol_task D p (link_of (0x03 ∷ read_request D unit lbn))
        ≡ done (refused p buff disk) (after (0x01 ∷ []) 1023 (link_of []))
  unfolding lptprotocol_task hasbyte readbyte run_command read_block
  task_refused p unit lbn buff r disk ready read bad =
      rw (asked, read_block, lba, read, differs)
        (ap (λ t. done (refused p buff disk) t.1)
          (writebyte-taken 0x01 1023 (link_of []) refl (omega arith)))
    where
      request : List ℕ
      request = overlay (read_request D unit lbn) p.buff

      asked : readbytes 5 p.buff (link_of (read_request D unit lbn)) ≡ got request (link_of [])
      asked =
          readbytes-got (read_request D unit lbn) [] p.buff (link_of [])
            (omega (arith, ready.buff_size))

      lba : long_at request 1 ≡ lbn
      lba = omega arith

      differs : (r % 256 == 0) ≡ false
      differs = ground arith

  read_round-refused :
      (p : Pico D) (unit lbn : ℕ) (buff : List ℕ) (r : ℕ) (disk : D.State)
      → IsReady D p
      → unit < 256
      → lbn < 2 ^ 16
      → D.read_sector unit lbn (overlay (read_request D unit lbn) p.buff) p.disk ≡ (r, buff, disk)
      → r % 256 ≢ 0
      → read_round (cable_peer D) unit lbn (idle D p) ≡ ok none (idle D (refused p buff disk))
  unfolding read_round
  read_round-refused p unit lbn buff r disk ready hu hl read bad =
      >>=-ok (write_many (cable_peer D) (0x03 ∷ read_request D unit lbn)) _
        (write_many-sends D (0x03 ∷ read_request D unit lbn) (idle D p) (omega arith))
      ∙ >>=-ok (read_byte (cable_peer D)) _ (
          read_byte-served D 0x01 [] _ p (refused p buff disk) (after (0x01 ∷ []) 1023 (link_of []))
            (task_refused p unit lbn buff r disk ready read bad) refl)

drop_nil : (m : ℕ) → ◌≡◌ {A = List ℕ} (drop m []) []
drop_nil zero = refl
drop_nil (suc m) = refl

drop-drop : (m n k : ℕ) (xs : List ℕ) → k ≡ n + m → drop m (drop n xs) ≡ drop k xs
drop-drop m zero k xs e = let back : m ≡ k = omega arith in ap (λ j. drop j xs) back
drop-drop m (suc n) zero xs e = absurd (omega arith)
drop-drop m (suc n) (suc k) [] e = drop_nil m
drop-drop m (suc n) (suc k) (x ∷ xs) e = drop-drop m n k xs (omega arith)

-- What is behind one sector and `n` more.
drop-sector :
    (n : ℕ) (sector dest : List ℕ)
    → length sector ≡ 512
    → drop (n * 512) (drop 512 (overlay sector dest)) ≡ drop (suc n * 512) dest
drop-sector n sector dest size =
    let behind : drop 512 (overlay sector dest) ≡ drop 512 dest =
      subst (λ j. drop j (overlay sector dest) ≡ drop j dest) size (drop-overlay sector dest) in
    ap (drop (n * 512)) behind ∙ drop-drop (n * 512) 512 (suc n * 512) dest (omega arith)

module _ (D : Disk) (unit : ℕ) (content : ℕ → List ℕ) {IsGood : D.State → Type 0} {Has : ℕ → Type 0}
    (laws : Reads D unit content IsGood Has) (at : ℕ)
    (refuses : (buff : List ℕ) (disk : D.State)
      → IsGood disk
      → (r : ℕ) × (buff' : List ℕ) × (disk' : D.State) × (D.read_sector unit at buff disk
          ≡ (r, buff', disk'))
        × (r % 256 ≢ 0)) where
  -- Where the disk reads the first `n` sectors of a request and refuses the next, LPTRead over the cable
  -- ends with RES_ERROR, with those sectors in the memory and the memory behind them as it was.
  pub lpt_read-refused :
      (n count lbn : ℕ) (dest : List ℕ) (p : Pico D)
      → n < count
      → unit < 256
      → lbn < 2 ^ 16
      → at ≡ (lbn + n) % 2 ^ 16
      → HasAll Has n lbn
      → length dest ≡ count * 512
      → IsReady D p
      → IsGood p.disk
      → (q : Pico D) × (lpt_read (cable_peer D) count unit lbn dest (idle D p)
          ≡ ok (res_error, sectors content n lbn ++ drop (n * 512) dest) (idle D q))
  unfolding lpt_read
  lpt_read-refused n zero lbn dest p fewer hu hl place has size ready good = absurd (omega arith)
  lpt_read-refused zero (suc count) lbn dest p fewer hu hl place has size ready good =
      let here : at ≡ lbn = omega arith in
      let (r, buff, disk, read, bad) =
        refuses (overlay (read_request D unit lbn) p.buff) p.disk good in
      (
        refused D p buff disk,
        >>=-ok (read_round (cable_peer D) unit lbn) _
            (read_round-refused D p unit lbn buff r disk ready hu hl (rw here at read) bad),
      )
  lpt_read-refused (suc n) (suc count) lbn dest p fewer hu hl place (here, later) size ready good =
      let (disk, read, good') =
        laws.reads lbn (overlay (read_request D unit lbn) p.buff) p.disk good here in
      let is = laws.sector lbn here in
      let q = served D p (content lbn) disk in
      let (q', rest) =
        lpt_read-refused n count ((lbn + 1) % 2 ^ 16) (drop 512 (overlay (content lbn) dest)) q
          (omega arith) hu (omega arith) (omega arith) later
          (omega (
            arith,
            is.sized,
            length-overlay (content lbn) dest,
            length-drop 512 (overlay (content lbn) dest),
          ))
          (served-IsReady D p (content lbn) disk is ready) good' in
      (
        q',
        >>=-ok (read_round (cable_peer D) unit lbn) _
              (read_round-sector D p unit lbn (content lbn) 0 disk ready hu hl read refl is)
            ∙ rw (room dest is size) (
                >>=-ok (lpt_read (cable_peer D) count unit ((lbn + 1) % 2 ^ 16) _) _ rest
                ∙ rw
                    (
                      take-overlay_sized 512 (content lbn) dest is.sized,
                      drop-sector n (content lbn) dest is.sized,
                      append_assoc,
                    )
                    refl),
      )
    where
      room :
          (dest : List ℕ)
          → IsSector (content lbn)
          → length dest ≡ suc count * 512
          → ltb (length dest) (length (content lbn)) ≡ false
      room dest is size = ground (arith, is.sized)
