-- ===== src/Driver/Transfers.antt =====
-- A read, a write and the mounting of a volume, from DOS's request to the disk behind the cable.
use lptstore.Prelude.{
  ℕ, ◌+◌, ◌*◌, ◌^◌, ◌≡◌, ◌⊎◌, inl, inr, ◌<◌, ap, ◌∙◌, true, false, List, arith, length,
}
use mathlib.Core.List.{append-nil}
use lptstore.Disk.{Disk}
use lptstore.Protocol.{Pico}
use lptstore.Protocol.Sectors.{IsReady}
use lptstore.Protocol.Writes.{IsBlock}
use lptstore.Host.{Peer, ok, res_ok, lpt_read, lpt_write}
use lptstore.Host.Laws.{>>=-ok}
use lptstore.Session.{Cable, cable_peer}
use lptstore.Session.Read.{idle, Reads, HasAll, sectors, lpt_read-sectors}
use lptstore.Session.Store.{Writes, rewritten, AllBlocks, lpt_write-rewrites}
use lptstore.Driver.{
  Bpb, Driver, update, find_volume, lpt_initialize, has_unit, found, boot_kind, fill_bpb, add_unit,
  check_fs, mount_volume,
}
use lptstore.Driver.Requests.{
  Request, drive_init, done, read_block, write_block, finish, dispatch, lpt_driver,
}
use lptstore.Driver.Laws.{drive_init-mounted}

pub lpt_driver-input :
    (P : Peer) (d : Driver) (rh : Request) (s : P.State)
    → rh.command ≡ 4
    → lpt_driver P d rh s ≡ read_block P d rh s
unfolding lpt_driver dispatch
lpt_driver-input P d rh s e = ap (λ c. dispatch P c d rh s) e

lpt_driver-output :
    (P : Peer) (d : Driver) (rh : Request) (s : P.State)
    → (rh.command ≡ 8) ⊎ (rh.command ≡ 9)
    → lpt_driver P d rh s ≡ write_block P d rh s
unfolding lpt_driver dispatch
lpt_driver-output P d rh s (inl e) = ap (λ c. dispatch P c d rh s) e
lpt_driver-output P d rh s (inr e) = ap (λ c. dispatch P c d rh s) e

module _ (D : Disk) (rh : Request) (content : ℕ → List ℕ) {IsGood : D.State → Type 0}
    {Has : ℕ → Type 0} (laws : Reads D rh.unit content IsGood Has) where
  -- For a mounted unit over a disk that reads its content, DOS's request INPUT ends with the status
  -- DONE, with the sectors asked for in the memory and nothing else of the request changed, with every
  -- BPB as it was, and leaves the target ready.
  pub lpt_driver-reads :
      (d : Driver) (p : Pico D)
      → rh.command ≡ 4
      → rh.unit < 16
      → has_unit d.disk_initialized rh.unit ≡ true
      → rh.start < 2 ^ 16
      → HasAll Has rh.count rh.start
      → length rh.dta ≡ rh.count * 512
      → IsReady D p
      → IsGood p.disk
      → (d' : Driver) × (q : Pico D) × (lpt_driver (cable_peer D) d rh (idle D p)
          ≡ ok
              (d', record rh { dta = sectors content rh.count rh.start; status = done })
              (idle D q))
        × (d'.bpb ≡ d.bpb)
        × IsReady D q
        × IsGood q.disk
  unfolding read_block finish
  lpt_driver-reads d p input small mounted hs has size ready good =
      let (d', init, same, _) = drive_init-mounted (cable_peer D) d rh (idle D p) small mounted in
      let (q, run, ready', good') =
        lpt_read-sectors D rh.unit content laws rh.count rh.start rh.dta p (omega arith) hs has size
          ready good in
      (
        d',
        q,
        lpt_driver-input (cable_peer D) d rh (idle D p) input
            ∙ >>=-ok (drive_init (cable_peer D) d rh) _ init
            ∙ >>=-ok (lpt_read (cable_peer D) rh.count rh.unit rh.start rh.dta) _ run,
        same,
        ready',
        good',
      )

module _ (D : Disk) (rh : Request) (store : Writes D rh.unit) where
  open store use {Room, Has, view}

  -- For a mounted unit over a disk with room, DOS's requests OUTPUT and OUTPUT_VERIFY end with the
  -- status DONE and nothing else of the request changed, and the unit then holds the memory, sector by
  -- sector, and the other sectors as before. The target is ready, the disk has its room less one for
  -- each sector, and the same units are mounted.
  pub lpt_driver-writes :
      (d : Driver) (p : Pico D) (n : ℕ)
      → (rh.command ≡ 8) ⊎ (rh.command ≡ 9)
      → rh.unit < 16
      → has_unit d.disk_initialized rh.unit ≡ true
      → rh.start < 2 ^ 16
      → HasAll Has rh.count rh.start
      → AllBlocks IsBlock rh.count rh.dta
      → IsReady D p
      → Room (rh.count + n) p.disk
      → (d' : Driver) × (q : Pico D) × (lpt_driver (cable_peer D) d rh (idle D p)
          ≡ ok (d', record rh { status = done }) (idle D q))
        × (d'.disk_initialized ≡ d.disk_initialized)
        × IsReady D q
        × Room n q.disk
        × ((j : ℕ) → Has j → view q.disk j ≡ rewritten rh.count rh.start rh.dta (view p.disk) j)
  unfolding write_block finish
  lpt_driver-writes d p n output small mounted hs has blocks ready room =
      let (d', init, _, same) = drive_init-mounted (cable_peer D) d rh (idle D p) small mounted in
      let (q, run, ready', room', seen) =
        lpt_write-rewrites D rh.unit store rh.count rh.start n rh.dta p (omega arith) hs has blocks
          ready room in
      (
        d',
        q,
        lpt_driver-output (cable_peer D) d rh (idle D p) output
            ∙ >>=-ok (drive_init (cable_peer D) d rh) _ init
            ∙ >>=-ok (lpt_write (cable_peer D) rh.count rh.unit rh.start rh.dta) _ run,
        same,
        ready',
        room',
        seen,
      )

module _ (D : Disk) (unit : ℕ) (content : ℕ → List ℕ) {IsGood : D.State → Type 0} {Has : ℕ → Type 0}
    (laws : Reads D unit content IsGood Has) where
  checked :
      (d : Driver) (s t : Cable D)
      → boot_kind (content 0) ≡ 0
      → lpt_read (cable_peer D) 1 unit 0 d.local_buffer s ≡ ok (res_ok, content 0) t
      → check_fs (cable_peer D) unit 0 d s ≡ ok (0, record d { local_buffer = content 0 }) t
  unfolding check_fs
  checked d s t boot run =
      >>=-ok (lpt_read (cable_peer D) 1 unit 0 d.local_buffer) _ run
      ∙ ap (λ fmt. ok (fmt, record d { local_buffer = content 0 }) t) boot

  mounted :
      (d : Driver) (s t : Cable D) (table : Bpb)
      → has_unit d.disk_initialized unit ≡ false
      → boot_kind (content 0) ≡ 0
      → fill_bpb (content 0) (d.bpb unit) ≡ (true, table)
      → lpt_read (cable_peer D) 1 unit 0 d.local_buffer s ≡ ok (res_ok, content 0) t
      → find_volume (cable_peer D) unit 0 d s
        ≡ ok
            (
              found,
              record d {
                local_buffer = content 0;
                bpb = update d.bpb unit table;
                partition_offset = 0;
                disk_initialized = add_unit d.disk_initialized unit;
              },
            )
            t
  unfolding find_volume mount_volume
  mounted d s t table fresh boot good run =
      rw fresh
        (>>=-ok (check_fs (cable_peer D) unit 0 d) _ (checked d s t boot run) ∙ rw (good, fresh))

  -- A unit whose sector 0 is a FAT boot sector of 512-byte sectors, asked for with partition 0, is
  -- mounted: its BPB is the sector's, the partition begins at 0, and no other unit's BPB changes.
  pub lpt_initialize-mounts :
      (d : Driver) (p : Pico D) (table : Bpb)
      → unit < 16
      → has_unit d.disk_initialized unit ≡ false
      → Has 0
      → length d.local_buffer ≡ 512
      → boot_kind (content 0) ≡ 0
      → fill_bpb (content 0) (d.bpb unit) ≡ (true, table)
      → IsReady D p
      → IsGood p.disk
      → (q : Pico D) × (lpt_initialize (cable_peer D) unit 0 d (idle D p)
          ≡ ok
              (
                true,
                record d {
                  local_buffer = content 0;
                  bpb = update d.bpb unit table;
                  partition_offset = 0;
                  disk_initialized = add_unit d.disk_initialized unit;
                },
              )
              (idle D q))
        × IsReady D q
        × IsGood q.disk
  unfolding lpt_initialize
  lpt_initialize-mounts d p table small fresh has size boot good ready sound =
      let (q, run, ready', sound') =
        lpt_read-sectors D unit content laws 1 0 d.local_buffer p (omega arith) (omega arith)
          (has, tt) size ready sound in
      (
        q,
        >>=-ok (find_volume (cable_peer D) unit 0 d) _ (
            mounted d (idle D p) (idle D q) table fresh boot good
              (run ∙ ap (λ bytes. ok (res_ok, bytes) (idle D q)) (append-nil (content 0)))),
        ready',
        sound',
      )
