-- ===== src/Usb.antt =====
-- pico/msc_app.c: one sector of the USB stick at a time, with the next one fetched ahead, and the
-- mounting of a stick.
pub mod Settle
pub mod Coherence
pub mod Faults
use lptstore.Prelude.{
  ℕ, ◌+◌, ◌%◌, ◌^◌, Bool, true, false, not, ◌&&◌, List, [], ◌∷◌, ◌==◌, if◌then◌else◌, Option, none,
  some,
}

-- What tuh_msc_read10 and tuh_msc_write10 of TinyUSB do: a command is refused, or it finishes with
-- the status of its command status wrapper (0 is passed). A command that is accepted finds the one
-- before it finished.
pub data Transfer (S A : Type 0) : Type 0 where
  refused : S → Transfer S A
  finished : ℕ → A → S → Transfer S A

pub record Stick : Type 1 where
  pub State : Type 0
  pub read10 : ℕ → State → Transfer State (List ℕ)
  pub write10 : ℕ → List ℕ → State → Transfer State (Unit {0})

-- The static variables. `pending` is the fetch ahead whose callback has not run: its status and data.
-- `complete` is true whenever no function waits, and is left out.
pub record Usb : Type 0 where
  pub result : ℕ
  pub usb_disk_inserted : Bool
  pub usb_disk_insert_event : Bool
  pub prefetching_lba : ℕ
  pub prefetching_buff : List ℕ
  pub prefetching_complete : Bool
  pub pending : Option (ℕ × List ℕ)

-- `prefetching_lba = -1`, and the buffer is all zeros.
abbrev pub power_on : List ℕ → Usb
power_on zeros = record {
  result = 0;
  usb_disk_inserted = false;
  usb_disk_insert_event = false;
  prefetching_lba = 0xffff_ffff;
  prefetching_buff = zeros;
  prefetching_complete = true;
  pending = none;
}

-- `d->csw->status == MSC_CSW_STATUS_PASSED ? 0 : 1`
abbrev pub status_result : ℕ → ℕ
status_result status = if status == 0 then 0 else 1

-- msc_fat_complete_cb for the fetch ahead, if it is pending.
unfoldable pub settle : Usb → Usb
settle u = elim u.pending [
  | none ↦ u
  | some (status, sector) ↦ record u {
    result = status_result status;
    prefetching_buff = sector;
    prefetching_complete = true;
    pending = none;
  }
]

-- What read_sector returns: 0 or 1 and the buffer, or nothing, where it waits for ever.
pub data Answer (S : Type 0) : Type 0 where
  returns : ℕ → List ℕ → Usb → S → Answer S
  hangs : Answer S

module _ (T : Stick) where
  -- The fetch ahead. `early`: does its callback run before `return result`?
  unfoldable pub fetch_ahead : Bool → ℕ → List ℕ → Usb → T.State → Answer T.State
  fetch_ahead early sector buff u s =
      let next = (sector + 1) % 2 ^ 32 in
      elim (T.read10 next s) [
        | refused s' ↦
            returns 1 buff (record u { prefetching_lba = next; prefetching_complete = false }) s'
        | finished status ahead s' ↦
            (let v = record u {
              prefetching_lba = next;
              prefetching_complete = false;
              pending = some (status, ahead);
            } in
              let w = if early then settle v else v in returns w.result buff w s')
      ]

  unfoldable pub fetch : Bool → ℕ → List ℕ → Usb → T.State → Answer T.State
  fetch early sector buff u s =
      if u.prefetching_lba == sector && u.result == 0
      then fetch_ahead early sector u.prefetching_buff u s
      else elim (T.read10 sector s) [
        | refused s' ↦ returns 1 buff u s'
        | finished status data' s' ↦
            fetch_ahead early sector data'
              (record u { result = status_result status; prefetching_complete = true }) s'
      ]

  unfoldable pub read_sector : Bool → ℕ → List ℕ → Usb → T.State → Answer T.State
  read_sector early sector buff u s =
      let v = settle u in
      if not u.usb_disk_inserted
      then returns 1 buff u s
      else if v.prefetching_complete
      then fetch early sector buff v s
      else hangs

  unfoldable pub write_sector : ℕ → List ℕ → Usb → T.State → ℕ × Usb × T.State
  write_sector sector buff u s =
      if not u.usb_disk_inserted then (1, u, s) else elim (T.write10 sector buff s) [
        | refused s' ↦ (1, u, s')
        | finished status _ s' ↦
            (let v = record (settle u) {
              result = status_result status;
              prefetching_complete = true;
            } in
              (v.result, v, s'))
      ]

-- disk_get_blocks and disk_get_drives, over what fat32.c answers.
unfoldable pub disk_get_blocks : Usb → ℕ → ℕ
disk_get_blocks u blocks = if not u.usb_disk_inserted then 0 else blocks

unfoldable pub disk_get_drives : Usb → ℕ → ℕ
disk_get_drives u disks = if not u.usb_disk_inserted then 0 else disks

unfoldable pub inquiry_complete_cb : ℕ → Usb → Bool × Usb
inquiry_complete_cb status u =
    if status == 0 then (true, record u { usb_disk_insert_event = true }) else (false, u)

unfoldable pub tuh_msc_mount_cb : Usb → Usb
tuh_msc_mount_cb u = record u { usb_disk_inserted = true }

unfoldable pub tuh_msc_umount_cb : Usb → Usb
tuh_msc_umount_cb u = record u { usb_disk_inserted = false }

-- msc_task: is init_disk to be called?
unfoldable pub msc_task : Usb → Bool × Usb
msc_task u =
    if u.usb_disk_insert_event
    then (true, record u { usb_disk_insert_event = false })
    else (false, u)
