-- ===== src/Target/Writing.antt =====
-- What the host writes to the target goes to the disk image on the stick.
use lptstore.Prelude.{
  ℕ, ◌+◌, ◌^◌, ◌≡◌, ◌≢◌, ◌<◌, ◌≤◌, ◌⊎◌, false, refl, sym, ap, ◌∙◌, Bool, List, [], ◌==◌,
  if◌then◌else◌, arith, get_or, some,
}
use lptstore.Protocol.{Pico}
use lptstore.Protocol.Sectors.{IsReady}
use lptstore.Protocol.Writes.{IsBlock}
use lptstore.Host.{ok, lpt_write, res_ok}
use lptstore.Session.{cable_peer}
use lptstore.Session.Read.{idle, HasAll}
use lptstore.Session.Store.{Writes, update, rewritten, AllBlocks, lpt_write-rewrites}
use lptstore.Usb.{Stick, Usb}
use lptstore.Usb.Settle.{Reliable, Coherent}
use lptstore.Usb.Coherence.{write_sector-Coherent}
use lptstore.Fat32.{Disks, nr_disks}
use lptstore.Fat32.Volume.{write_disk_sector}
use lptstore.Fat32.Access.{IsSound, write_disk_sector-place}
use lptstore.Target.{Bus, live, lost, Card, bus_write, usb_medium, disk_write_sector, usb_disk}

module _ {T : Stick} {view : T.State → ℕ → List ℕ} (reliable : Reliable T view)
    (early : ℕ → Bool) where
  -- The stick is in, and `ahead` is the sector that was fetched ahead.
  pub record IsOpen (disks : Disks) (ahead : ℕ) (c : Card T) : Type 0 where
    pub usb : Usb
    pub stick : T.State
    pub bus_lem : c.bus ≡ live usb stick
    pub disks_lem : c.disks ≡ disks
    pub coherent : Coherent (view stick) usb
    pub ahead_lem : usb.prefetching_lba ≡ ahead

  abbrev pub content : Bus T → ℕ → List ℕ
  content (live u s) = view s
  content lost = λ _. []

  bus_write-live :
      (lba : ℕ) (buff : List ℕ) (u : Usb) (s : T.State)
      → lba ≢ u.prefetching_lba
      → Coherent (view s) u
      → (u' : Usb) × (s' : T.State) × (bus_write T early lba buff (live u s) ≡ (0, live u' s'))
        × Coherent (view s') u'
        × ((j : ℕ) → view s' j ≡ (if j == lba then buff else view s j))
        × (u'.prefetching_lba ≡ u.prefetching_lba)
  unfolding bus_write
  bus_write-live lba buff u s other coherent =
      let (u', s', e, next, written, same) =
        write_sector-Coherent reliable lba buff u s other coherent in
      (u', s', rw (bus_write, e), next, written, same)

  module _ (disks : Disks) (unit ahead : ℕ) where
    -- The sectors of the disk image `unit`, on the stick.
    abbrev pub image_of : Card T → ℕ → List ℕ
    image_of c lbn = content c.bus (get_or disks.disk_lba unit 0 + lbn)

    -- The sectors that the image has, but for the one that was fetched ahead.
    abbrev pub Free : ℕ → Type 0
    Free lbn =
        (lbn < get_or disks.disk_blocks unit 0) × (get_or disks.disk_lba unit 0 + lbn ≢ ahead)

    -- What is not of the image is on the stick as it was `before`.
    abbrev pub Keeps : (ℕ → List ℕ) → Card T → Type 0
    Keeps before c =
        (j : ℕ)
        → (j < get_or disks.disk_lba unit 0)
          ⊎ (get_or disks.disk_lba unit 0 + get_or disks.disk_blocks unit 0 ≤ j)
        → content c.bus j ≡ before j

    module _ (known : unit < nr_disks) (sound : IsSound disks)
        (active : 0 < get_or disks.disk_lba unit 0) where
      pub disk_write_sector-IsOpen :
          (lbn n : ℕ) (sector : List ℕ) (c : Card T)
          → IsOpen disks ahead c
          → Free lbn
          → IsBlock sector
          → (c' : Card T) × (disk_write_sector T early unit lbn sector c ≡ (0, c'))
            × IsOpen disks ahead c'
            × ((j : ℕ)
                → content c'.bus j
                  ≡ (if j == get_or disks.disk_lba unit 0 + lbn then sector else content c.bus j))
      unfolding disk_write_sector
      disk_write_sector-IsOpen lbn n sector c is (within, other) block =
          let lba = get_or disks.disk_lba unit 0 + lbn in
          let (u', s', e, next, written, same) =
            bus_write-live lba sector is.usb is.stick (omega (arith, is.ahead_lem)) is.coherent in
          let there : write_disk_sector (usb_medium T early) unit lbn sector c.disks c.bus
              ≡ some (0, live u' s') =
            rw (is.disks_lem, is.bus_lem)
              (write_disk_sector-place (usb_medium T early) unit lbn sector disks
                  (live is.usb is.stick) known sound.lbas active within
                  (omega (arith, sound.fits unit, within))
                ∙ ap some e) in
          (
            record c { bus = live u' s' },
            rw (disk_write_sector, there),
            record {
              usb = u';
              stick = s';
              bus_lem = refl;
              disks_lem = is.disks_lem;
              coherent = next;
              ahead_lem = same ∙ is.ahead_lem;
            },
            λ j.
                written j
                ∙ ap
                    (λ bus.
                      if j == get_or disks.disk_lba unit 0 + lbn then sector else content bus j)
                    (sym is.bus_lem),
          )

      pub image_write :
          (before : ℕ → List ℕ) (lbn n : ℕ) (sector : List ℕ) (c : Card T)
          → IsOpen disks ahead c × Keeps before c
          → Free lbn
          → IsBlock sector
          → (c' : Card T) × (disk_write_sector T early unit lbn sector c ≡ (0, c'))
            × (IsOpen disks ahead c' × Keeps before c')
            × ((j : ℕ) → Free j → image_of c' j ≡ update (image_of c) lbn sector j)
      image_write before lbn n sector c (is, keeps) free block =
          let (c', run, is', written) = disk_write_sector-IsOpen lbn n sector c is free block in
          (
            c',
            run,
            (
              is',
              λ j out.
                  written j
                  ∙ ap (λ b. if b then sector else content c.bus j) (elsewhere j out)
                  ∙ keeps j out,
            ),
            λ j has.
                written (get_or disks.disk_lba unit 0 + j)
                ∙ ap (λ b. if b then sector else image_of c j)
                    (shifted (get_or disks.disk_lba unit 0) j lbn),
          )
        where
          elsewhere :
              (j : ℕ)
              → (j < get_or disks.disk_lba unit 0)
                ⊎ (get_or disks.disk_lba unit 0 + get_or disks.disk_blocks unit 0 ≤ j)
              → (j == get_or disks.disk_lba unit 0 + lbn) ≡ false
          elsewhere j out = ground (arith, free.0)

          shifted : (base i k : ℕ) → (base + i == base + k) ≡ (i == k)
          shifted base i k = ground arith

      abbrev pub image_writes : (ℕ → List ℕ) → Writes (usb_disk T early) unit
      image_writes before = record {
        Room = λ n c. IsOpen disks ahead c × Keeps before c;
        Has = Free;
        view = image_of;
        writes = image_write before;
      }

      -- Where the stick accepts every command and the disk image of the unit is known, LPTWrite of
      -- sectors of the image, none of them the sector that was fetched ahead, to a target that is
      -- ready ends with RES_OK. The image then holds the memory, sector by sector, and its other
      -- sectors as before, but for the one fetched ahead, of which nothing is said; no sector of the
      -- stick that is not of the image is changed.
      pub lpt_write-image :
          (count lbn : ℕ) (src : List ℕ) (p : Pico (usb_disk T early))
          → lbn < 2 ^ 16
          → HasAll Free count lbn
          → AllBlocks IsBlock count src
          → IsReady (usb_disk T early) p
          → IsOpen disks ahead p.disk
          → (q : Pico (usb_disk T early)) × (lpt_write
                (cable_peer (usb_disk T early))
                count
                unit
                lbn
                src
                (idle (usb_disk T early) p)
              ≡ ok res_ok (idle (usb_disk T early) q))
            × IsReady (usb_disk T early) q
            × (IsOpen disks ahead q.disk × Keeps (content p.disk.bus) q.disk)
            × ((j : ℕ) → Free j → image_of q.disk j ≡ rewritten count lbn src (image_of p.disk) j)
      lpt_write-image count lbn src p small has blocks ready is =
          lpt_write-rewrites (usb_disk T early) unit (image_writes (content p.disk.bus)) count lbn 0
            src p (omega arith) small has blocks ready (is, λ j out. refl)
