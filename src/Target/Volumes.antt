-- ===== src/Target/Volumes.antt =====
-- A unit of a mounted stick from its first use in DOS on.
use native.Mathlib.Nat.{add-div_right, one-le-pow}
use lptstore.Prelude.{
  ℕ, ◌+◌, ◌*◌, ◌/◌, ◌^◌, ◌≡◌, ◌<◌, true, false, Bool, List, length, get_or, arith, refl,
}
use lptstore.Protocol.{Pico}
use lptstore.Protocol.Sectors.{IsReady}
use lptstore.Host.{ok}
use lptstore.Session.{cable_peer}
use lptstore.Session.Read.{idle, HasAll, sectors}
use lptstore.Driver.{Bpb, Driver, has_unit, add_unit, update, lpt_initialize, boot_kind, fill_bpb}
use lptstore.Driver.Requests.{Request, done, lpt_driver}
use lptstore.Driver.Transfers.{lpt_driver-reads, lpt_initialize-mounts}
use lptstore.Usb.{Stick}
use lptstore.Usb.Settle.{Reliable}
use lptstore.Fat32.{Fat32, nr_disks}
use lptstore.Fat32.Verdicts.{IsVolume}
use lptstore.Fat32.Mount.{volume_of}
use lptstore.Target.{usb_disk}
use lptstore.Target.Reading.{IsLive}
use lptstore.Target.Mount.{HasMounted}
use lptstore.Target.Files.{file, InFile, file_reads}

-- A unit that was added is mounted.
pub has_unit-add_unit :
    (word unit : ℕ) → has_unit word unit ≡ false → has_unit (add_unit word unit) unit ≡ true
has_unit-add_unit word unit fresh =
    let more : (word + 2 ^ unit) / 2 ^ unit ≡ word / 2 ^ unit + 1 =
      add-div_right word {k = 2 ^ unit} (one-le-pow unit 2 (omega arith)) in
    let added : add_unit word unit ≡ word + 2 ^ unit = rw fresh in
    rw (added, more) (ground (arith, fresh))

module _ {T : Stick} {view : T.State → ℕ → List ℕ} (reliable : Reliable T view) (early : ℕ → Bool)
    (content : ℕ → List ℕ) (f : Fat32) (sized : IsVolume content (volume_of content f)) where
  -- From a stick to a drive of DOS: after a stick that accepts every command was mounted, LPTInitialize
  -- finds the volume in the file of a disk that is active, where the file begins with a boot sector of
  -- which fill_bpb makes a BPB, and the request INPUT for the unit then ends with the status DONE and
  -- the bytes of the file in the memory, each sector found by the file's chain of clusters in the table.
  -- (The unit was not mounted in DOS before. The sectors are within the size that the directory has and
  -- within the chain, and LPTCompress has room for each; the target is ready, and it is ready again.)
  pub lpt_initialize-file :
      (rh : Request) (d : Driver) (p : Pico (usb_disk T early)) (table : Bpb)
      → HasMounted reliable early content f sized p.disk
      → rh.unit < nr_disks
      → 0 < get_or p.disk.disks.disk_lba rh.unit 0
      → has_unit d.disk_initialized rh.unit ≡ false
      → InFile reliable early content f sized p.disk.disks rh.unit 0
      → length d.local_buffer ≡ 512
      → boot_kind (file reliable early content f sized p.disk.disks rh.unit 0) ≡ 0
      → fill_bpb (file reliable early content f sized p.disk.disks rh.unit 0) (d.bpb rh.unit)
        ≡ (true, table)
      → rh.command ≡ 4
      → rh.start < 2 ^ 16
      → HasAll (InFile reliable early content f sized p.disk.disks rh.unit) rh.count rh.start
      → length rh.dta ≡ rh.count * 512
      → IsReady (usb_disk T early) p
      → (d' d'' : Driver) × (q q' : Pico (usb_disk T early)) × (lpt_initialize
            (cable_peer (usb_disk T early))
            rh.unit
            0
            d
            (idle (usb_disk T early) p)
          ≡ ok (true, d') (idle (usb_disk T early) q))
        × (d'.bpb ≡ update d.bpb rh.unit table)
        × (lpt_driver (cable_peer (usb_disk T early)) d' rh (idle (usb_disk T early) q)
            ≡ ok
                (
                  d'',
                  record rh {
                    dta =
                        sectors
                          (file reliable early content f sized p.disk.disks rh.unit)
                          rh.count
                          rh.start;
                    status = done;
                  },
                )
                (idle (usb_disk T early) q'))
        × IsReady (usb_disk T early) q'
        × IsLive reliable early content p.disk.disks q'.disk
  lpt_initialize-file rh d p table has_mounted known active fresh first size boot good input start
        has size' ready =
      let bytes = file reliable early content f sized p.disk.disks rh.unit in
      let laws =
        file_reads reliable early content f sized p.disk.disks rh.unit known has_mounted.lbas active
          has_mounted.mounted in
      let (q, run, ready', live_now) =
        lpt_initialize-mounts (usb_disk T early) rh.unit bytes laws d p table known fresh first size
          boot good ready has_mounted.is_live in
      let d' = record d {
        local_buffer = bytes 0;
        bpb = update d.bpb rh.unit table;
        partition_offset = 0;
        disk_initialized = add_unit d.disk_initialized rh.unit;
      } in
      let (d'', q', run', _, ready'', live_then) =
        lpt_driver-reads (usb_disk T early) rh bytes laws d' q input known
          (has_unit-add_unit d.disk_initialized rh.unit fresh) start has size' ready' live_now in
      (d', d'', q, q', run, refl, run', ready'', live_then)
