-- ===== src/Target/Files.antt =====
-- What DOS reads from a unit of a mounted stick is what the unit's file holds.
use native.Mathlib.Nat.{div-add-mod, mod-lt}
use lptstore.Prelude.{
  ℕ, ◌+◌, ◌*◌, ◌/◌, ◌%◌, ◌^◌, ◌≡◌, ◌<◌, inl, inr, ap, ◌∙◌, true, Bool, List, length, get_or, arith,
}
use lptstore.Protocol.{Pico}
use lptstore.Protocol.Sectors.{IsSector, IsReady}
use lptstore.Host.{ok}
use lptstore.Session.{cable_peer}
use lptstore.Session.Read.{idle, Reads, HasAll, sectors}
use lptstore.Driver.{Driver, has_unit}
use lptstore.Driver.Requests.{Request, done, lpt_driver}
use lptstore.Driver.Transfers.{lpt_driver-reads}
use lptstore.Usb.{Stick}
use lptstore.Usb.Settle.{Reliable}
use lptstore.Fat32.{Fat32, Disks, nr_disks, get_lba}
use lptstore.Fat32.Chains.{nth}
use lptstore.Fat32.Places.{cluster_end}
use lptstore.Fat32.Verdicts.{IsVolume, InChain}
use lptstore.Fat32.Mount.{volume_of, IsMounted, InChain-last, InChain-Within}
use lptstore.Target.{Card, disk_read_sector, usb_disk}
use lptstore.Target.Reading.{IsLive, disk_read_sector-live}
use lptstore.Target.Mount.{usb_medium-Holds, HasMounted}

module _ {T : Stick} {view : T.State → ℕ → List ℕ} (reliable : Reliable T view) (early : ℕ → Bool)
    (content : ℕ → List ℕ) (f : Fat32) (sized : IsVolume content (volume_of content f)) where
  abbrev volume : Fat32
  volume = volume_of content f

  -- The cluster of the volume that holds sector `lbn` of the file that begins with `cluster`.
  abbrev cluster_of : ℕ → ℕ → ℕ
  cluster_of cluster lbn =
      nth (usb_medium-Holds reliable early content) volume (lbn / volume.sectors_per_cluster)
        cluster

  -- Sector `lbn` of the file that begins with `cluster`, found along the chain.
  abbrev pub file_sector : ℕ → ℕ → List ℕ
  file_sector cluster lbn =
      content (get_lba volume (cluster_of cluster lbn) + lbn % volume.sectors_per_cluster)

  module _ (disks : Disks) (unit : ℕ) where
    -- The file of the unit's disk.
    abbrev pub file : ℕ → List ℕ
    file = file_sector (get_or disks.disk_cluster unit 0)

    -- The sectors that the directory and the chain give the file, and that LPTCompress has room for.
    abbrev pub InFile : ℕ → Type 0
    InFile lbn =
        (lbn < get_or disks.disk_blocks unit 0)
        × InChain (usb_medium-Holds reliable early content) volume sized
            (lbn / volume.sectors_per_cluster) (get_or disks.disk_cluster unit 0)
        × IsSector (file lbn)

    module _ (known : unit < nr_disks) (lbas : length disks.disk_lba ≡ nr_disks)
        (active : 0 < get_or disks.disk_lba unit 0)
        (mounted : IsMounted (usb_medium-Holds reliable early content) f sized disks) where
      -- The sector's place behind the first of the file, and where it ends.
      in_place :
          (lbn : ℕ)
          → InFile lbn
          → (get_or disks.disk_lba unit 0 + lbn
              ≡ get_lba volume (cluster_of (get_or disks.disk_cluster unit 0) lbn)
                + lbn % volume.sectors_per_cluster)
            × (get_or disks.disk_lba unit 0 + lbn < 0xffff_ffff)
      in_place lbn (within, reached, _) = elim (mounted unit known) [
        | inl off ↦ absurd (omega arith)
        | inr (bound, there) ↦
            (let at = there (lbn / volume.sectors_per_cluster) reached in
              let below = mod-lt lbn sized.size.filled in
              let end =
                cluster_end volume sized.size (cluster_of (get_or disks.disk_cluster unit 0) lbn)
                  (InChain-Within (usb_medium-Holds reliable early content) volume sized _ _ bound
                    reached)
                  (InChain-last (usb_medium-Holds reliable early content) volume sized _ _
                    reached) in
              let all = div-add-mod lbn volume.sectors_per_cluster in
              (omega (arith, at, all), omega (arith, at, all, below, end)))
      ]

      pub read_file_sector :
          (lbn : ℕ) (buff : List ℕ) (c : Card T)
          → IsLive reliable early content disks c
          → InFile lbn
          → (c' : Card T) × (disk_read_sector T early unit lbn buff c ≡ (0, file lbn, c'))
            × IsLive reliable early content disks c'
      read_file_sector lbn buff c is has =
          let (at, low) = in_place lbn has in
          let (c', e, is') =
            disk_read_sector-live reliable early content disks unit lbn buff c known lbas active
              has.0 low is in
          (c', e ∙ ap (λ lba. (0, content lba, c')) at, is')

      abbrev pub file_reads :
          Reads (usb_disk T early) unit file (IsLive reliable early content disks) InFile
      file_reads = record { sector = λ lbn has. has.2; reads = read_file_sector }

  -- DOS reads files: after a stick that accepts every command was mounted, the request INPUT for a
  -- unit whose disk is active ends with the status DONE and with the bytes of the disk's file in the
  -- memory, each sector found by the file's chain of clusters in the table, and nothing else of the
  -- request is changed. (The unit is mounted in DOS too. The sectors are within the size that the
  -- directory has and within the chain, and LPTCompress has room for each; the target is ready, and it
  -- is ready again.)
  pub lpt_driver-file :
      (rh : Request) (d : Driver) (p : Pico (usb_disk T early))
      → HasMounted reliable early content f sized p.disk
      → rh.unit < nr_disks
      → 0 < get_or p.disk.disks.disk_lba rh.unit 0
      → rh.command ≡ 4
      → has_unit d.disk_initialized rh.unit ≡ true
      → rh.start < 2 ^ 16
      → HasAll (InFile p.disk.disks rh.unit) rh.count rh.start
      → length rh.dta ≡ rh.count * 512
      → IsReady (usb_disk T early) p
      → (d' : Driver) × (q : Pico (usb_disk T early)) × (lpt_driver
            (cable_peer (usb_disk T early))
            d
            rh
            (idle (usb_disk T early) p)
          ≡ ok
              (
                d',
                record rh {
                  dta = sectors (file p.disk.disks rh.unit) rh.count rh.start;
                  status = done;
                },
              )
              (idle (usb_disk T early) q))
        × (d'.bpb ≡ d.bpb)
        × IsReady (usb_disk T early) q
        × IsLive reliable early content p.disk.disks q.disk
  lpt_driver-file rh d p has_mounted known active input mounted start has size ready =
      lpt_driver-reads (usb_disk T early) rh (file p.disk.disks rh.unit)
        (file_reads p.disk.disks rh.unit known has_mounted.lbas active has_mounted.mounted) d p
        input known mounted start has size ready has_mounted.is_live
