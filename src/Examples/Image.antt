-- ===== src/Examples/Image.antt =====
-- The driver and the target with a blank stick, on which disk C is a file.
use lptstore.Prelude.{ℕ, ◌≡◌, refl, Bool, false, replicate, arith, inl}
use lptstore.Protocol.{Pico}
use lptstore.Protocol.Sectors.{IsReady}
use lptstore.Protocol.Writes.{IsBlock}
use lptstore.Host.{ok}
use lptstore.Session.{cable_peer}
use lptstore.Session.Read.{idle, sectors}
use lptstore.Session.Store.{rewritten}
use lptstore.Usb.{Usb}
use lptstore.Driver.{Driver}
use lptstore.Driver.Requests.{Request, done, lpt_driver}
use lptstore.Target.ReadBack.{lpt_driver-read_back}
use lptstore.Target.Requests.{lpt_driver-image, lpt_driver-image_writes}
use lptstore.Examples.Requests.{driver, request}
use lptstore.Target.{live, usb_disk}
use lptstore.Target.Reading.{IsLive, image}
use lptstore.Target.Writing.{IsOpen, Free, image_of, Keeps}
use lptstore.Examples.Stick.{
  array, array-Reliable, blank, mounted, mounted-Coherent, ahead, ahead-Coherent,
}
use lptstore.Examples.Volume.{disks, disks-IsSound}
use lptstore.Examples.Cable.{zeros-IsSector}

-- The callback of the fetch ahead runs late.
abbrev late : ℕ → Bool
late lba = false

abbrev target : Usb → Pico (usb_disk array late)
target usb = record {
  buff = replicate 512 0;
  compress_buff = replicate 512 0;
  disk = record { disks = disks; bus = live usb blank };
}

target-IsReady : (usb : Usb) → IsReady (usb_disk array late) (target usb)
target-IsReady usb = record { buff_size = refl; compress_buff_size = refl }

mounted-IsLive : IsLive array-Reliable late blank disks (target mounted).disk
mounted-IsLive = record {
  usb = mounted;
  stick = blank;
  bus_lem = refl;
  disks_lem = refl;
  coherent = mounted-Coherent;
  holds = refl;
}

ahead-IsOpen : IsOpen array-Reliable late disks 9 (target ahead).disk
ahead-IsOpen = record {
  usb = ahead;
  stick = blank;
  bus_lem = refl;
  disks_lem = refl;
  coherent = ahead-Coherent;
  ahead_lem = refl;
}

zeros-IsBlock : IsBlock (replicate 512 0)
zeros-IsBlock = record { sized = refl; bytes = zeros-IsSector.bytes }

-- Unit 2 is mounted, and DOS asks for its sector 7, or writes it.
abbrev driver_c : Driver
driver_c = record driver { disk_initialized = 4 }

abbrev input_c : Request
input_c = record request { unit = 2; start = 7; count = 1; dta = replicate 512 9 }

abbrev output_c : Request
output_c = record input_c { command = 8; dta = replicate 512 0 }

lpt_driver-image_example :
    (d' : Driver) × (q : Pico (usb_disk array late)) × (lpt_driver
        (cable_peer (usb_disk array late))
        driver_c
        input_c
        (idle (usb_disk array late) (target mounted))
      ≡ ok
          (
            d',
            record input_c {
              dta = sectors (image array-Reliable late blank disks 2) 1 7;
              status = done;
            },
          )
          (idle (usb_disk array late) q))
    × (d'.bpb ≡ driver_c.bpb)
    × IsReady (usb_disk array late) q
    × IsLive array-Reliable late blank disks q.disk
lpt_driver-image_example =
    lpt_driver-image array-Reliable late input_c disks (omega arith) disks-IsSound (omega arith)
      blank driver_c (target mounted) refl refl (omega arith) ((omega arith, zeros-IsSector), tt)
      refl (target-IsReady mounted) mounted-IsLive

lpt_driver-image_writes_example :
    (d' : Driver) × (q : Pico (usb_disk array late)) × (lpt_driver
        (cable_peer (usb_disk array late))
        driver_c
        output_c
        (idle (usb_disk array late) (target ahead))
      ≡ ok (d', record output_c { status = done }) (idle (usb_disk array late) q))
    × (d'.disk_initialized ≡ 4)
    × IsReady (usb_disk array late) q
    × (IsOpen array-Reliable late disks 9 q.disk × Keeps array-Reliable late disks 2 9 blank q.disk)
    × ((j : ℕ)
        → Free array-Reliable late disks 2 9 j
        → image_of array-Reliable late disks 2 9 q.disk j
          ≡ rewritten 1 7
              (replicate 512 0)
              (image_of array-Reliable late disks 2 9 (target ahead).disk)
              j)
lpt_driver-image_writes_example =
    lpt_driver-image_writes array-Reliable late output_c disks (omega arith) disks-IsSound
      (omega arith) 9 driver_c (target ahead) (inl refl) refl (omega arith)
      ((omega arith, omega arith), tt) (zeros-IsBlock, tt) (target-IsReady ahead) ahead-IsOpen

lpt_driver-read_back_example :
    (d' d'' : Driver) × (q q' : Pico (usb_disk array late)) × (lpt_driver
        (cable_peer (usb_disk array late))
        driver_c
        output_c
        (idle (usb_disk array late) (target ahead))
      ≡ ok (d', record output_c { status = done }) (idle (usb_disk array late) q))
    × (lpt_driver (cable_peer (usb_disk array late)) d' input_c (idle (usb_disk array late) q)
        ≡ ok
            (d'', record input_c { dta = replicate 512 0; status = done })
            (idle (usb_disk array late) q'))
    × Keeps array-Reliable late disks 2 9 blank q'.disk
    × ((j : ℕ)
        → Free array-Reliable late disks 2 9 j
        → image_of array-Reliable late disks 2 9 q'.disk j
          ≡ rewritten 1 output_c.start
              (replicate 512 0)
              (image_of array-Reliable late disks 2 9 (target ahead).disk)
              j)
lpt_driver-read_back_example =
    lpt_driver-read_back array-Reliable late output_c input_c disks (omega arith) disks-IsSound
      (omega arith) 9 driver_c (target ahead) (inl refl) refl refl refl refl refl (omega arith)
      (omega arith) ((omega arith, omega arith), tt) refl refl (zeros-IsSector, tt)
      (target-IsReady ahead) ahead-IsOpen
