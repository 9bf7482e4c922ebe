-- ===== src/Target/Reading.antt =====
-- What the host reads from the target is what the stick holds.
use lptstore.Prelude.{
  ℕ, ◌+◌, ◌^◌, ◌≡◌, ◌<◌, ◌*◌, refl, ap, ◌∙◌, Bool, List, length, arith, get_or, some,
}
use lptstore.Protocol.{Pico}
use lptstore.Protocol.Sectors.{IsSector, IsReady}
use lptstore.Host.{ok, lpt_read, res_ok}
use lptstore.Session.{cable_peer}
use lptstore.Session.Read.{idle, Reads, HasAll, sectors, lpt_read-sectors}
use lptstore.Usb.{Stick, Usb}
use lptstore.Usb.Settle.{Reliable, Coherent}
use lptstore.Usb.Coherence.{read_sector-Coherent}
use lptstore.Fat32.{Disks, nr_disks}
use lptstore.Fat32.Volume.{read_disk_sector}
use lptstore.Fat32.Access.{IsSound, read_disk_sector-place}
use lptstore.Target.{live, Card, bus_read, usb_medium, disk_read_sector, usb_disk}

module _ {T : Stick} {view : T.State → ℕ → List ℕ} (reliable : Reliable T view)
    (early : ℕ → Bool) where
  -- The stick is in and holds `content`, and the fetch ahead agrees with it.
  pub record IsLive (content : ℕ → List ℕ) (disks : Disks) (c : Card T) : Type 0 where
    pub usb : Usb
    pub stick : T.State
    pub bus_lem : c.bus ≡ live usb stick
    pub disks_lem : c.disks ≡ disks
    pub coherent : Coherent (view stick) usb
    pub holds : view stick ≡ content

  pub bus_read-live :
      (lba : ℕ) (buff : List ℕ) (u : Usb) (s : T.State)
      → lba < 0xffff_ffff
      → Coherent (view s) u
      → (u' : Usb) × (s' : T.State) × (bus_read T early lba buff (live u s)
          ≡ (0, view s lba, live u' s'))
        × Coherent (view s') u'
        × (view s' ≡ view s)
  unfolding bus_read
  bus_read-live lba buff u s small coherent =
      let (u', s', e, next, same) =
        read_sector-Coherent reliable (early lba) lba buff u s small coherent in
      (u', s', rw (bus_read, e), next, same)

  module _ (content : ℕ → List ℕ) (disks : Disks) (unit : ℕ) where
    pub disk_read_sector-live :
        (lbn : ℕ) (buff : List ℕ) (c : Card T)
        → unit < nr_disks
        → length disks.disk_lba ≡ nr_disks
        → 0 < get_or disks.disk_lba unit 0
        → lbn < get_or disks.disk_blocks unit 0
        → get_or disks.disk_lba unit 0 + lbn < 0xffff_ffff
        → IsLive content disks c
        → (c' : Card T) × (disk_read_sector T early unit lbn buff c
            ≡ (0, content (get_or disks.disk_lba unit 0 + lbn), c'))
          × IsLive content disks c'
    unfolding disk_read_sector
    disk_read_sector-live lbn buff c known lbas active within low is =
        let lba = get_or disks.disk_lba unit 0 + lbn in
        let (u', s', e, next, same) = bus_read-live lba buff is.usb is.stick low is.coherent in
        let there : read_disk_sector (usb_medium T early) unit lbn buff c.disks c.bus
            ≡ some (0, content lba, live u' s') =
          rw (is.disks_lem, is.bus_lem)
            (read_disk_sector-place (usb_medium T early) unit lbn buff disks (live is.usb is.stick)
                known lbas active within (omega arith)
              ∙ ap some (e ∙ ap (λ f. (0, f lba, live u' s')) is.holds)) in
        (
          record c { bus = live u' s' },
          rw (disk_read_sector, there),
          record {
            usb = u';
            stick = s';
            bus_lem = refl;
            disks_lem = is.disks_lem;
            coherent = next;
            holds = same ∙ is.holds;
          },
        )

    -- The sectors of the disk image `unit`, on the stick.
    abbrev pub image : ℕ → List ℕ
    image lbn = content (get_or disks.disk_lba unit 0 + lbn)

    -- The sectors that the image has, and that LPTCompress has room for.
    abbrev pub Image : ℕ → Type 0
    Image lbn = (lbn < get_or disks.disk_blocks unit 0) × IsSector (image lbn)

    module _ (known : unit < nr_disks) (sound : IsSound disks)
        (active : 0 < get_or disks.disk_lba unit 0) where
      abbrev pub image_reads : Reads (usb_disk T early) unit image (IsLive content disks) Image
      image_reads = record {
        sector = λ lbn has. has.1;
        reads = λ lbn buff c is has.
            disk_read_sector-live lbn buff c known sound.lbas active has.0
              (omega (arith, sound.fits unit, has.0)) is;
      }

      -- From the host to the stick and back: where the stick accepts every command and the disk image
      -- of the unit is known, LPTRead of sectors within the image, each
      -- with room for what LPTCompress makes of it, ends with RES_OK and the sectors of the image's
      -- place on the stick; the target is ready again, and the stick's content is what it was.
      pub lpt_read-image :
          (count lbn : ℕ) (dest : List ℕ) (p : Pico (usb_disk T early))
          → lbn < 2 ^ 16
          → HasAll Image count lbn
          → length dest ≡ count * 512
          → IsReady (usb_disk T early) p
          → IsLive content disks p.disk
          → (q : Pico (usb_disk T early)) × (lpt_read
                (cable_peer (usb_disk T early))
                count
                unit
                lbn
                dest
                (idle (usb_disk T early) p)
              ≡ ok (res_ok, sectors image count lbn) (idle (usb_disk T early) q))
            × IsReady (usb_disk T early) q
            × IsLive content disks q.disk
      lpt_read-image count lbn dest p small has sized ready is =
          lpt_read-sectors (usb_disk T early) unit image image_reads count lbn dest p (omega arith)
            small has sized ready is
