-- ===== src/Target/Mount.antt =====
-- The mounting of a stick: msc_task of pico/msc_app.c with init_disk over the USB stick.
use lptstore.Prelude.{
  ℕ, ◌≡◌, ◌<◌, refl, ap, ◌∙◌, if◌then◌else◌, Bool, true, false, List, Option, none, some, arith,
  get_or, length,
}
use lptstore.Usb.{disk_get_drives, Stick, Usb, settle, msc_task}
use lptstore.Usb.Settle.{Reliable, Coherent, if_not}
use lptstore.Fat32.{Fat32, Disks, Walk, ended, out_of_fuel, le32, nr_disks, in_chain}
use lptstore.Fat32.Volume.{init_disk}
use lptstore.Fat32.Cache.{Holds, IsCached}
use lptstore.Fat32.Chains.{nth}
use lptstore.Fat32.Verdicts.{Within, IsVolume}
use lptstore.Fat32.Directory.{DirectoryNames}
use lptstore.Fat32.Listing.{IsListed}
use lptstore.Fat32.Drives.{drives}
use lptstore.Fat32.Mount.{volume_of, IsMounted, KeepsListed, init_disk-mounts}
use lptstore.Target.{Bus, live, Card, usb_medium, card_drives, card_task}
use lptstore.Target.Reading.{IsLive, bus_read-live}

-- The notice of a stick that was put in does not matter to the reads.
told-Coherent :
    (view : ℕ → List ℕ) (u : Usb)
    → Coherent view u
    → Coherent view (record u { usb_disk_insert_event = false })
unfolding settle
told-Coherent view u is = record {
  inserted = is.inserted;
  ready = same_ready ∙ is.ready;
  passed = same_result ∙ is.passed;
  same = λ small. same_buff ∙ is.same small;
}
  where
    told : Usb
    told = record u { usb_disk_insert_event = false }

    same_ready : (settle told).prefetching_complete ≡ (settle u).prefetching_complete
    same_ready = ground arith

    same_result : (settle told).result ≡ (settle u).result
    same_result = ground arith

    same_buff : (settle told).prefetching_buff ≡ (settle u).prefetching_buff
    same_buff = ground arith

msc_task-told :
    (u : Usb)
    → u.usb_disk_insert_event ≡ true
    → msc_task u ≡ (true, record u { usb_disk_insert_event = false })
unfolding msc_task
msc_task-told u event =
    ap (λ b. if b then (true, record u { usb_disk_insert_event = false }) else (false, u)) event

-- What msc_task makes of the result of init_disk.
abbrev after : {T : Stick} → Walk (Option (ℕ × Disks × Bus T)) → Walk (Option (Card T))
after w = elim w [
  | out_of_fuel ↦ out_of_fuel
  | ended none ↦ ended none
  | ended (some (_, disks, bus)) ↦ ended (some (record { disks = disks; bus = bus }))
]

card_task-told :
    {T : Stick} (early : ℕ → Bool) (fuel : ℕ) (stack : List ℕ) (f : Fat32) (disks : Disks) (u : Usb)
    (s : T.State)
    → u.usb_disk_insert_event ≡ true
    → card_task T early fuel stack f (record { disks = disks; bus = live u s })
      ≡ after (
          init_disk
            (usb_medium T early)
            fuel
            stack
            f
            disks
            (live (record u { usb_disk_insert_event = false }) s))
unfolding card_task
card_task-told {T = T} early fuel stack f disks u s event =
    (ap
      (λ (q : Bool × Usb). elim q.0 [
        | false ↦ ended (some (record { disks = disks; bus = live u s }))
        | true ↦ after (init_disk (usb_medium T early) fuel stack f disks (live q.1 s))
      ])
      (msc_task-told u event))

module _ {T : Stick} {view : T.State → ℕ → List ℕ} (reliable : Reliable T view) (early : ℕ → Bool)
    (content : ℕ → List ℕ) where
  -- The stick is in and holds `content`.
  pub record IsUp (bus : Bus T) : Type 0 where
    pub usb : Usb
    pub stick : T.State
    pub bus_lem : bus ≡ live usb stick
    pub coherent : Coherent (view stick) usb
    pub holds : view stick ≡ content

  pub usb_medium-Holds : Holds (usb_medium T early) content IsUp
  usb_medium-Holds = record { reads = λ lba buff bus small up. go lba buff bus small up }
    where
      go :
          (lba : ℕ) (buff : List ℕ) (bus : Bus T)
          → lba < 0xffff_ffff
          → IsUp bus
          → (r : ℕ) × (bus' : Bus T) × ((usb_medium T early).read_sector lba buff bus
              ≡ (r, content lba, bus'))
            × IsUp bus'
      go lba buff bus small up =
          let (u', s', e, next, same) =
            bus_read-live reliable early lba buff up.usb up.stick small up.coherent in
          (
            0,
            live u' s',
            rw up.bus_lem (e ∙ ap (λ g. (0, g lba, live u' s')) up.holds),
            record {
              usb = u';
              stick = s';
              bus_lem = refl;
              coherent = next;
              holds = same ∙ up.holds;
            },
          )

  drives-told :
      (d : Disks) (bus : Bus T)
      → IsUp bus
      → d.disk_bitmap ≡ drives d
      → card_drives T early (record { disks = d; bus = bus }) ≡ drives d
  unfolding card_drives disk_get_drives
  drives-told d bus up bits =
      rw (card_drives, up.bus_lem) (if_not up.usb.usb_disk_inserted _ _ up.coherent.inserted ∙ bits)

  module _ (f : Fat32) (sized : IsVolume content (volume_of content f)) where
    -- The stick's disks are those that init_disk found, and the answer for the drives has one bit for each
    -- active disk and one for the configuration.
    pub record HasMounted (c : Card T) : Type 0 where
      pub is_live : IsLive reliable early content c.disks c
      pub lbas : length c.disks.disk_lba ≡ nr_disks
      pub mounted : IsMounted usb_medium-Holds f sized c.disks
      pub drives_lem : card_drives T early c ≡ drives c.disks

    -- Where a stick has been put in that accepts every command and holds a boot sector and a root
    -- directory whose chain has an end, and where each entry for a disk has a letter from A to P,
    -- msc_task ends with the stick mounted: each disk is not active, or in the place that disk_lba has
    -- for it lie its file's clusters, one behind the other; reads of the stick are sound, and its
    -- content is what it was; the answer for the drives names the active disks and the configuration. Of
    -- the disks that read_file has listed one stays as it is where its file is in one piece, and it is
    -- dropped only where its file has a gap.
    -- (There is fuel for the directory and for file_has_gaps; the clusters that the boot sector, the
    -- table and the entries of the directory for disks and for the configuration name lie below sector
    -- 2 ^ 32, and the first behind the tables; the kept sector of the table is sound or none; and the
    -- arrays are sound before, as they are at power on.)
    pub card_task-mounts :
        (m fuel : ℕ) (stack : List ℕ) (disks : Disks) (u : Usb) (s : T.State)
        → view s ≡ content
        → Coherent (view s) u
        → u.usb_disk_insert_event ≡ true
        → get_or (content 0) 0x1fe 0 ≡ 0x55
        → get_or (content 0) 0x1ff 0 ≡ 0xaa
        → in_chain (nth usb_medium-Holds (volume_of content f) m (le32 (content 0) 0x2c)) ≡ false
        → m < fuel
        → 0x0fff_fff0 < fuel
        → IsCached content (volume_of content f)
        → IsListed sized.size.clusters disks.disk_bitmap (volume_of content f) disks
        → Within sized.size.clusters (le32 (content 0) 0x2c)
        → DirectoryNames usb_medium-Holds (volume_of content f) sized (le32 (content 0) 0x2c)
        → (c' : Card T) × (card_task T early fuel stack f (record { disks = disks; bus = live u s })
            ≡ ended (some c'))
          × HasMounted c'
          × KeepsListed usb_medium-Holds f sized fuel stack disks
              (live (record u { usb_disk_insert_event = false }) s)
              c'.disks
    card_task-mounts m fuel stack disks u s holds coherent event low high over enough plenty cached
          is root names =
        let run_lem = card_task-told early fuel stack f disks u s event in
        let told : Usb = record u { usb_disk_insert_event = false } in
        let ready : IsUp (live told s) = record {
          usb = told;
          stick = s;
          bus_lem = refl;
          coherent = told-Coherent (view s) u coherent;
          holds = holds;
        } in
        let (d, bus, run, lbas, mounted, bits, kept, good) =
          init_disk-mounts usb_medium-Holds f sized m fuel stack disks (live told s) low high over
            enough plenty cached is root names ready in
        (
          record { disks = d; bus = bus },
          run_lem ∙ ap after run,
          record {
            is_live = record {
              usb = good.usb;
              stick = good.stick;
              bus_lem = good.bus_lem;
              disks_lem = refl;
              coherent = good.coherent;
              holds = good.holds;
            };
            lbas = lbas;
            mounted = mounted;
            drives_lem = drives-told d bus good bits;
          },
          kept,
        )
