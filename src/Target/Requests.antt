-- ===== src/Target/Requests.antt =====
-- From a request of DOS to the bytes on the stick.
use lptstore.Prelude.{ℕ, refl, ◌*◌, ◌^◌, ◌≡◌, ◌⊎◌, ◌<◌, true, Bool, List, length, get_or}
use lptstore.Protocol.{Pico}
use lptstore.Protocol.Sectors.{IsReady}
use lptstore.Protocol.Writes.{IsBlock}
use lptstore.Host.{ok}
use lptstore.Session.{cable_peer}
use lptstore.Session.Read.{idle, HasAll, sectors}
use lptstore.Session.Store.{AllBlocks, rewritten}
use lptstore.Driver.{Driver, has_unit}
use lptstore.Driver.Requests.{Request, done, lpt_driver}
use lptstore.Driver.Transfers.{lpt_driver-reads, lpt_driver-writes}
use lptstore.Usb.{Stick}
use lptstore.Usb.Settle.{Reliable}
use lptstore.Fat32.{Disks, nr_disks}
use lptstore.Fat32.Access.{IsSound}
use lptstore.Target.{usb_disk}
use lptstore.Target.Reading.{IsLive, image, Image, image_reads}
use lptstore.Target.Writing.{IsOpen, Free, image_of, image_writes, Keeps, content}

module _ {T : Stick} {view : T.State → ℕ → List ℕ} (reliable : Reliable T view) (early : ℕ → Bool)
    (rh : Request) (disks : Disks) (known : rh.unit < nr_disks) (sound : IsSound disks)
    (active : 0 < get_or disks.disk_lba rh.unit 0) where
  -- From DOS to the stick: the request INPUT for a mounted unit, whose disk image is known, of
  -- a stick that accepts every command, ends with the status DONE and the bytes
  -- of the image in the memory, and nothing else of the request is changed. (The sectors are within
  -- the image and LPTCompress has room for each; the target is ready, and it is ready again.)
  pub lpt_driver-image :
      (content : ℕ → List ℕ) (d : Driver) (p : Pico (usb_disk T early))
      → rh.command ≡ 4
      → has_unit d.disk_initialized rh.unit ≡ true
      → rh.start < 2 ^ 16
      → HasAll (Image reliable early content disks rh.unit) rh.count rh.start
      → length rh.dta ≡ rh.count * 512
      → IsReady (usb_disk T early) p
      → IsLive reliable early content disks p.disk
      → (d' : Driver) × (q : Pico (usb_disk T early)) × (lpt_driver
            (cable_peer (usb_disk T early))
            d
            rh
            (idle (usb_disk T early) p)
          ≡ ok
              (
                d',
                record rh {
                  dta = sectors (image reliable early content disks rh.unit) rh.count rh.start;
                  status = done;
                },
              )
              (idle (usb_disk T early) q))
        × (d'.bpb ≡ d.bpb)
        × IsReady (usb_disk T early) q
        × IsLive reliable early content disks q.disk
  lpt_driver-image content d p input mounted start has size ready live =
      lpt_driver-reads (usb_disk T early) rh (image reliable early content disks rh.unit)
        (image_reads reliable early content disks rh.unit known sound active) d p input known
        mounted start has size ready live

  -- From DOS to the stick: the requests OUTPUT and OUTPUT_VERIFY for a mounted unit, whose disk image
  -- is known, of sectors of the image that are not the one fetched ahead, end with the status DONE, and
  -- nothing else of the request is changed. The image on the stick, which accepts every command, then
  -- holds the memory, sector by sector, and its other sectors as before, but for the one fetched
  -- ahead, of which nothing is said; no sector of the stick that is not of the image is changed. (The
  -- target is ready, and it is ready again, and the same units are mounted.)
  pub lpt_driver-image_writes :
      (ahead : ℕ) (d : Driver) (p : Pico (usb_disk T early))
      → (rh.command ≡ 8) ⊎ (rh.command ≡ 9)
      → has_unit d.disk_initialized rh.unit ≡ true
      → rh.start < 2 ^ 16
      → HasAll (Free reliable early disks rh.unit ahead) rh.count rh.start
      → AllBlocks IsBlock rh.count rh.dta
      → IsReady (usb_disk T early) p
      → IsOpen reliable early disks ahead p.disk
      → (d' : Driver) × (q : Pico (usb_disk T early)) × (lpt_driver
            (cable_peer (usb_disk T early))
            d
            rh
            (idle (usb_disk T early) p)
          ≡ ok (d', record rh { status = done }) (idle (usb_disk T early) q))
        × (d'.disk_initialized ≡ d.disk_initialized)
        × IsReady (usb_disk T early) q
        × (IsOpen reliable early disks ahead q.disk
            × Keeps reliable early disks rh.unit ahead (content reliable early p.disk.bus) q.disk)
        × ((j : ℕ)
            → Free reliable early disks rh.unit ahead j
            → image_of reliable early disks rh.unit ahead q.disk j
              ≡ rewritten rh.count rh.start rh.dta
                  (image_of reliable early disks rh.unit ahead p.disk)
                  j)
  lpt_driver-image_writes ahead d p output mounted start has blocks ready open_now =
      lpt_driver-writes (usb_disk T early) rh
        (image_writes reliable early disks rh.unit ahead known sound active
          (content reliable early p.disk.bus))
        d p 0 output known mounted start has blocks ready (open_now, λ j out. refl)
