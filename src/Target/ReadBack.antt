-- ===== src/Target/ReadBack.antt =====
-- What DOS has written to a unit of the stick it reads back.
use lptstore.Prelude.{
  ℕ, ◌*◌, ◌^◌, ◌≡◌, ◌⊎◌, ◌<◌, ◌≤◌, ◌+◌, sym, subst, ap, ◌∙◌, true, Bool, List, length, get_or,
  arith,
}
use lptstore.Protocol.{Pico}
use lptstore.Protocol.Sectors.{IsReady, IsSector}
use lptstore.Host.{ok}
use lptstore.Session.{cable_peer}
use lptstore.Session.Read.{idle, HasAll, Reads}
use lptstore.Session.ReadBack.{on_range, blocks-AllBlocks}
use lptstore.Session.Store.{AllBlocks, rewritten}
use lptstore.Driver.{Driver, has_unit}
use lptstore.Driver.Requests.{Request, done, lpt_driver}
use lptstore.Driver.Transfers.{lpt_driver-reads}
use lptstore.Usb.{Stick}
use lptstore.Usb.Settle.{Reliable}
use lptstore.Fat32.{Disks, nr_disks}
use lptstore.Fat32.Access.{IsSound}
use lptstore.Target.{Bus, Card, usb_disk}
use lptstore.Target.Reading.{IsLive, disk_read_sector-live}
use lptstore.Target.Writing.{IsOpen, Free, Keeps, image_of, content}
use lptstore.Target.Requests.{lpt_driver-image_writes}

module _ {T : Stick} {view : T.State → ℕ → List ℕ} (reliable : Reliable T view) (early : ℕ → Bool)
    (disks : Disks) (unit ahead : ℕ) (known : unit < nr_disks) (sound : IsSound disks)
    (active : 0 < get_or disks.disk_lba unit 0) where
  open_live :
      (c : Card T)
      → IsOpen reliable early disks ahead c
      → IsLive reliable early (content reliable early c.bus) disks c
  open_live c is = record {
    usb = is.usb;
    stick = is.stick;
    bus_lem = is.bus_lem;
    disks_lem = is.disks_lem;
    coherent = is.coherent;
    holds = ap (content reliable early) (sym is.bus_lem);
  }

  -- A unit whose free sectors hold `bytes`.
  held :
      (c : Card T) (bytes : ℕ → List ℕ)
      → ((j : ℕ)
          → Free reliable early disks unit ahead j
          → image_of reliable early disks unit ahead c j ≡ bytes j)
      → Reads
          (usb_disk T early)
          unit
          bytes
          (IsLive reliable early (content reliable early c.bus) disks)
          (λ j. Free reliable early disks unit ahead j × IsSector (bytes j))
  held c bytes same = record {
    sector = λ lbn has. has.1;
    reads = λ lbn buff d is has.
        (let (d', e, is') =
            disk_read_sector-live reliable early (content reliable early c.bus) disks unit lbn buff
              d known sound.lbas active (has.0).0 (omega (arith, sound.fits unit, (has.0).0)) is in
          (d', e ∙ ap (λ (sector : List ℕ). (0, sector, d')) (same lbn has.0), is'));
  }

module _ {T : Stick} {view : T.State → ℕ → List ℕ} (reliable : Reliable T view) (early : ℕ → Bool)
    (out in_next : Request) (disks : Disks) (known : out.unit < nr_disks) (sound : IsSound disks)
    (active : 0 < get_or disks.disk_lba out.unit 0) where
  -- Between DOS and the stick nothing is lost: after OUTPUT or OUTPUT_VERIFY of sectors of a mounted
  -- unit, INPUT of the same sectors gives back the memory that was written, both with the status DONE.
  -- The unit's image on the stick then holds the memory in these sectors and what it held before in its
  -- others, and no sector of the stick outside the image is changed. This is said of the sectors that
  -- were not fetched ahead when the request began: that one is not of the request, and nothing is said
  -- of it. (The sectors are at most 65536, within the image, and LPTCompress has room for each; the
  -- stick accepts every command; the target is ready.)
  pub lpt_driver-read_back :
      (ahead : ℕ) (d : Driver) (p : Pico (usb_disk T early))
      → (out.command ≡ 8) ⊎ (out.command ≡ 9)
      → in_next.command ≡ 4
      → in_next.unit ≡ out.unit
      → in_next.start ≡ out.start
      → in_next.count ≡ out.count
      → has_unit d.disk_initialized out.unit ≡ true
      → out.start < 2 ^ 16
      → out.count ≤ 2 ^ 16
      → HasAll (Free reliable early disks out.unit ahead) out.count out.start
      → length out.dta ≡ out.count * 512
      → length in_next.dta ≡ out.count * 512
      → AllBlocks IsSector out.count out.dta
      → IsReady (usb_disk T early) p
      → IsOpen reliable early disks ahead p.disk
      → (d' d'' : Driver) × (q q' : Pico (usb_disk T early)) × (lpt_driver
            (cable_peer (usb_disk T early))
            d
            out
            (idle (usb_disk T early) p)
          ≡ ok (d', record out { status = done }) (idle (usb_disk T early) q))
        × (lpt_driver (cable_peer (usb_disk T early)) d' in_next (idle (usb_disk T early) q)
            ≡ ok
                (d'', record in_next { dta = out.dta; status = done })
                (idle (usb_disk T early) q'))
        × Keeps reliable early disks out.unit ahead (content reliable early p.disk.bus) q'.disk
        × ((j : ℕ)
            → Free reliable early disks out.unit ahead j
            → image_of reliable early disks out.unit ahead q'.disk j
              ≡ rewritten out.count out.start out.dta
                  (image_of reliable early disks out.unit ahead p.disk)
                  j)
  lpt_driver-read_back ahead d p output input units starts counts mounted start few has size size'
        blocks ready open_now =
      let (d', q, run, same, ready', opened, seen) =
        lpt_driver-image_writes reliable early out disks known sound active ahead d p output mounted
          start has (blocks-AllBlocks out.count out.dta blocks) ready open_now in
      let bytes =
        rewritten out.count out.start out.dta
          (image_of reliable early disks out.unit ahead p.disk) in
      let (whole, there) =
        on_range (Free reliable early disks out.unit ahead) out.count out.start out.dta
          (image_of reliable early disks out.unit ahead p.disk) few start size blocks has in
      let laws = held reliable early disks out.unit ahead known sound active q.disk bytes seen in
      let good = IsLive reliable early (content reliable early q.disk.bus) disks in
      let here = λ (j : ℕ). Free reliable early disks out.unit ahead j × IsSector (bytes j) in
      let (d'', q', run', _, _, live_now) =
        lpt_driver-reads (usb_disk T early) in_next bytes
          (subst (λ u. Reads (usb_disk T early) u bytes good here) (sym units) laws) d' q input
          (omega (arith, units, known)) (rw (units, same) mounted) (omega (arith, starts))
          (rw (counts, starts) there) (omega (arith, size', counts)) ready'
          (open_live reliable early disks out.unit ahead known sound active q.disk opened.0) in
      (
        d',
        d'',
        q,
        q',
        run,
        run'
            ∙ ap
                (λ (memory : List ℕ).
                  ok (d'', record in_next { dta = memory; status = done })
                    (idle (usb_disk T early) q'))
                (rw (counts, starts) whole),
        λ j away. still q.disk.bus live_now j ∙ opened.1 j away,
        λ j free. still q.disk.bus live_now (get_or disks.disk_lba out.unit 0 + j) ∙ seen j free,
      )
    where
      -- The reads of INPUT do not change what is on the stick.
      still :
          (before : Bus T) {c : Card T}
          → IsLive reliable early (content reliable early before) disks c
          → (j : ℕ) → content reliable early c.bus j ≡ content reliable early before j
      still before live_now j =
          ap (λ (f : ℕ → List ℕ). f j)
            (ap (content reliable early) live_now.bus_lem ∙ live_now.holds)
