-- ===== src/Target.antt =====
-- The target as a whole: pico/disk.h as pico/msc_app.c implements it, over fs/fat32.c and the USB
-- stick, and the loop of lptcomms_core in pico/lptstore.c.
pub mod Files
pub mod Mount
pub mod ReadBack
pub mod Reading
pub mod Volumes
pub mod Writing
pub mod Requests
use lptstore.Prelude.{ℕ, Bool, true, false, List, Option, none, some}
use lptstore.Comms.{Link}
use lptstore.Disk.{Disk}
use lptstore.Protocol.{Pico, Outcome, done, fault, lptprotocol_task}
use lptstore.Usb.{
  Stick, Usb, returns, hangs, read_sector, write_sector, disk_get_blocks, disk_get_drives, msc_task,
}
use lptstore.Fat32.{Fat32, Disks, Medium, Walk, ended, out_of_fuel}
use lptstore.Fat32.Volume.{get_disk_blocks, read_disk_sector, write_disk_sector, init_disk}

-- The static variables of msc_app.c and the stick. `lost`: a wait without end, or an access outside an
-- array. Nothing is said of what the code does from there on.
pub data Bus (T : Stick) : Type 0 where
  live : Usb → T.State → Bus T
  lost : Bus T

-- The static variables of fat32.c beside it.
pub record Card (T : Stick) : Type 0 where
  pub disks : Disks
  pub bus : Bus T

-- `early lba`: does the callback of the fetch ahead run before the read of `lba` returns?
module _ (T : Stick) (early : ℕ → Bool) where
  unfoldable pub bus_read : ℕ → List ℕ → Bus T → ℕ × List ℕ × Bus T
  bus_read lba buff lost = (0, buff, lost)
  bus_read lba buff (live u s) = elim (read_sector T (early lba) lba buff u s) [
    | returns r sector u' s' ↦ (r, sector, live u' s')
    | hangs ↦ (0, buff, lost)
  ]

  unfoldable pub bus_write : ℕ → List ℕ → Bus T → ℕ × Bus T
  bus_write lba buff lost = (0, lost)
  bus_write lba buff (live u s) = let (r, u', s') = write_sector T lba buff u s in (r, live u' s')

  -- read_sector and write_sector, which fat32.h asks for.
  abbrev pub usb_medium : Medium
  usb_medium = record { State = Bus T; read_sector = bus_read; write_sector = bus_write }

  unfoldable pub disk_read_sector : ℕ → ℕ → List ℕ → Card T → ℕ × List ℕ × Card T
  disk_read_sector disk lbn buff c =
      elim (read_disk_sector usb_medium disk lbn buff c.disks c.bus) [
        | none ↦ (0, buff, record c { bus = lost })
        | some (r, sector, bus) ↦ (r, sector, record c { bus = bus })
      ]

  unfoldable pub disk_write_sector : ℕ → ℕ → List ℕ → Card T → ℕ × Card T
  disk_write_sector disk lbn buff c =
      elim (write_disk_sector usb_medium disk lbn buff c.disks c.bus) [
        | none ↦ (0, record c { bus = lost })
        | some (r, bus) ↦ (r, record c { bus = bus })
      ]

  -- The element behind the end of the array is taken for 0.
  unfoldable pub card_blocks : ℕ → Card T → ℕ
  card_blocks disk c = elim c.bus [
    | lost ↦ 0
    | live u s ↦ disk_get_blocks u (elim (get_disk_blocks disk c.disks) [ none ↦ 0 | some n ↦ n ])
  ]

  unfoldable pub card_drives : Card T → ℕ
  card_drives c = elim c.bus [ lost ↦ 0 | live u s ↦ disk_get_drives u c.disks.disk_bitmap ]

  abbrev pub usb_disk : Disk
  usb_disk = record {
    State = Card T;
    read_sector = disk_read_sector;
    write_sector = disk_write_sector;
    get_blocks = card_blocks;
    get_drives = card_drives;
  }

  -- msc_task with its init_disk, over what the stack holds. `none` is a write outside an array.
  unfoldable pub card_task : ℕ → List ℕ → Fat32 → Card T → Walk (Option (Card T))
  card_task fuel stack f c = elim c.bus [
    | lost ↦ ended (some c)
    | live u s ↦
        (let (event, v) = msc_task u in
          elim event [
            | false ↦ ended (some c)
            | true ↦ elim (init_disk usb_medium fuel stack f c.disks (live v s)) [
              | out_of_fuel ↦ out_of_fuel
              | ended none ↦ ended none
              | ended (some (_, disks, bus)) ↦ ended (some (record { disks = disks; bus = bus }))
            ]
          ])
  ]

  -- One round of the loop of lptcomms_core.
  unfoldable pub core_round : ℕ → List ℕ → Fat32 → Pico usb_disk → Link → Walk (Outcome usb_disk)
  core_round fuel stack f p l = elim (lptprotocol_task usb_disk p l) [
    | fault ↦ ended fault
    | done q l' ↦ elim (card_task fuel stack f q.disk) [
      | out_of_fuel ↦ out_of_fuel
      | ended none ↦ ended fault
      | ended (some c) ↦ ended (done (record q { disk = c }) l')
    ]
  ]
