-- ===== src/Examples/Insert.antt =====
-- The stick of Examples/Mount is put in, and DOS reads from it.
use lptstore.Prelude.{
  ℕ, ◌≡◌, ◌⊎◌, ◌+◌, ◌*◌, zero, suc, inl, inr, refl, ◌∙◌, Bool, false, true, replicate, arith, some,
  get_or, set, ◌==◌, Bool-cases, get_or-set_miss,
}
use lptstore.Protocol.{Pico}
use lptstore.Protocol.Sectors.{IsReady}
use lptstore.Host.{ok}
use lptstore.Session.{cable_peer}
use lptstore.Session.Read.{idle, sectors}
use lptstore.Driver.{Driver, update, lpt_initialize}
use lptstore.Driver.Requests.{Request, done, lpt_driver}
use lptstore.Usb.{disk_get_drives, Usb, settle}
use lptstore.Usb.Settle.{Coherent}
use lptstore.Fat32.{Disks, no_disks, ended, get_lba, in_chain}
use lptstore.Fat32.Cache.{fat_entry}
use lptstore.Fat32.Chains.{nth}
use lptstore.Fat32.Verdicts.{Within, InChain, InChain-first}
use lptstore.Fat32.Drives.{active_bits, drives}
use lptstore.Fat32.Mount.{volume_of, IsMounted, KeepsListed}
use lptstore.Target.{live, Card, card_drives, card_task, usb_disk}
use lptstore.Target.Reading.{IsLive}
use lptstore.Target.Mount.{usb_medium-Holds, HasMounted, card_task-mounts}
use lptstore.Target.Volumes.{lpt_initialize-file}
use lptstore.Target.Files.{file, lpt_driver-file}
use lptstore.Examples.Cable.{zeros-IsSector}
use lptstore.Examples.Requests.{driver, request, geometry, boot-IsSector, boot-kind, boot-bpb}
use lptstore.Examples.Stick.{array, array-Reliable, mounted}
use lptstore.Examples.Volume.{any-Within}
use lptstore.Examples.Mount.{
  content, stack, whole_volume, no_disks-IsListed, directory_names, zero_at,
}

-- The callback of the fetch ahead runs late.
abbrev late : ℕ → Bool
late lba = false

abbrev inserted : Usb
inserted = record mounted { usb_disk_insert_event = true }

mounted-Coherent : Coherent content mounted
unfolding settle
mounted-Coherent = record {
  inserted = refl;
  ready = refl;
  passed = refl;
  same = λ small. absurd (omega arith);
}

inserted-Coherent : Coherent content inserted
unfolding settle
inserted-Coherent = record {
  inserted = refl;
  ready = refl;
  passed = refl;
  same = λ small. absurd (omega arith);
}

abbrev card : Card array
card = record { disks = no_disks; bus = live inserted content }

root_ends :
    in_chain (nth (usb_medium-Holds array-Reliable late content) (volume_of content stack) 1 2)
    ≡ false
unfolding fat_entry
root_ends = refl

card_task-mounts_example :
    (c' : Card array) × (card_task array late 0x0fff_fff1 (replicate 512 0) stack card
      ≡ ended (some c'))
    × HasMounted array-Reliable late content stack whole_volume c'
    × KeepsListed
        (usb_medium-Holds array-Reliable late content)
        stack
        whole_volume
        0x0fff_fff1
        (replicate 512 0)
        no_disks
        (live (record inserted { usb_disk_insert_event = false }) content)
        c'.disks
card_task-mounts_example =
    card_task-mounts array-Reliable late content stack whole_volume 1 0x0fff_fff1 (replicate 512 0)
      no_disks inserted content refl inserted-Coherent refl refl refl root_ends (omega arith)
      (omega arith) (inl refl) no_disks-IsListed (any-Within 2)
      (directory_names (usb_medium-Holds array-Reliable late content))

-- Disk C is the file from cluster 4 on.
abbrev disks_c : Disks
disks_c = record no_disks {
  disk_bitmap = 4;
  disk_lba = set (replicate 16 0) 2 236;
  disk_blocks = set (replicate 16 0) 2 4;
  disk_cluster = set (replicate 16 0) 2 4;
}

chain_place :
    (k : ℕ)
    → InChain
        (usb_medium-Holds array-Reliable late content)
        (volume_of content stack)
        whole_volume
        k
        4
    → get_lba
        (volume_of content stack)
        (nth (usb_medium-Holds array-Reliable late content) (volume_of content stack) k 4)
      ≡ 236 + 2 * k
unfolding fat_entry get_lba
chain_place zero is = refl
chain_place (suc zero) is = refl
chain_place (suc (suc k)) (_, more) =
    let (_, rest) = more in
    let bad : false ≡ true =
      InChain-first (usb_medium-Holds array-Reliable late content) (volume_of content stack)
        whole_volume k 0x0fff_ffff rest in
    absurd cc

disks_c-IsMounted :
    IsMounted (usb_medium-Holds array-Reliable late content) stack whole_volume disks_c
disks_c-IsMounted i within = elim (Bool-cases (i == 2)) [
  | inl e ↦ here (ground arith)
  | inr e ↦ inl (get_or-set_miss (replicate 16 0) 2 i 236 0 (ground arith) ∙ zero_at 16 i)
]
  where
    here :
        i ≡ 2
        → (get_or disks_c.disk_lba i 0 ≡ 0)
          ⊎ (Within 0x0fff_fff0 (get_or disks_c.disk_cluster i 0)
              × ((k : ℕ)
                  → InChain
                      (usb_medium-Holds array-Reliable late content)
                      (volume_of content stack)
                      whole_volume
                      k
                      (get_or disks_c.disk_cluster i 0)
                  → get_lba (volume_of content stack) (
                      nth
                        (usb_medium-Holds array-Reliable late content)
                        (volume_of content stack)
                        k
                        (get_or disks_c.disk_cluster i 0))
                    ≡ get_or disks_c.disk_lba i 0 + 2 * k))
    here e = rw e (inr (any-Within 4, chain_place))

abbrev target : Pico (usb_disk array late)
target = record {
  buff = replicate 512 0;
  compress_buff = replicate 512 0;
  disk = record { disks = disks_c; bus = live mounted content };
}

drives_c : card_drives array late target.disk ≡ drives target.disk.disks
unfolding card_drives disk_get_drives active_bits
drives_c = refl

target-HasMounted : HasMounted array-Reliable late content stack whole_volume target.disk
target-HasMounted = record {
  is_live = record {
    usb = mounted;
    stick = content;
    bus_lem = refl;
    disks_lem = refl;
    coherent = mounted-Coherent;
    holds = refl;
  };
  lbas = refl;
  mounted = disks_c-IsMounted;
  drives_lem = drives_c;
}

-- Unit 2 is mounted, and DOS asks for its sector 3, in the second cluster.
abbrev driver_c : Driver
driver_c = record driver { disk_initialized = 4 }

abbrev input_c : Request
input_c = record request { unit = 2; start = 3; count = 1; dta = replicate 512 9 }

target-IsReady : IsReady (usb_disk array late) target
target-IsReady = record { buff_size = refl; compress_buff_size = refl }

lpt_driver-file_example :
    (d' : Driver) × (q : Pico (usb_disk array late)) × (lpt_driver
        (cable_peer (usb_disk array late))
        driver_c
        input_c
        (idle (usb_disk array late) target)
      ≡ ok
          (
            d',
            record input_c {
              dta = sectors (file array-Reliable late content stack whole_volume disks_c 2) 1 3;
              status = done;
            },
          )
          (idle (usb_disk array late) q))
    × (d'.bpb ≡ driver_c.bpb)
    × IsReady (usb_disk array late) q
    × IsLive array-Reliable late content disks_c q.disk
unfolding fat_entry get_lba
lpt_driver-file_example =
    lpt_driver-file array-Reliable late content stack whole_volume input_c driver_c target
      target-HasMounted (omega arith) (omega arith) refl refl (omega arith)
      ((omega arith, (refl, refl), zeros-IsSector), tt) refl target-IsReady

-- Unit 2 is not mounted in DOS yet.
abbrev driver_fresh : Driver
driver_fresh = record driver { disk_initialized = 8 }

lpt_initialize-file_example :
    (d' d'' : Driver) × (q q' : Pico (usb_disk array late)) × (lpt_initialize
        (cable_peer (usb_disk array late))
        2
        0
        driver_fresh
        (idle (usb_disk array late) target)
      ≡ ok (true, d') (idle (usb_disk array late) q))
    × (d'.bpb ≡ update driver.bpb 2 geometry)
    × (lpt_driver (cable_peer (usb_disk array late)) d' input_c (idle (usb_disk array late) q)
        ≡ ok
            (
              d'',
              record input_c {
                dta = sectors (file array-Reliable late content stack whole_volume disks_c 2) 1 3;
                status = done;
              },
            )
            (idle (usb_disk array late) q'))
    × IsReady (usb_disk array late) q'
    × IsLive array-Reliable late content disks_c q'.disk
unfolding fat_entry get_lba
lpt_initialize-file_example =
    lpt_initialize-file array-Reliable late content stack whole_volume input_c driver_fresh target
      geometry target-HasMounted (omega arith) (omega arith) refl (omega arith, refl, boot-IsSector)
      refl boot-kind boot-bpb refl (omega arith) ((omega arith, (refl, refl), zeros-IsSector), tt)
      refl target-IsReady
