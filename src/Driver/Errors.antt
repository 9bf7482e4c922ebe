-- ===== src/Driver/Errors.antt =====
-- A request of DOS for a sector that the disk refuses.
use lptstore.Prelude.{
  ℕ, ◌+◌, ◌*◌, ◌%◌, ◌^◌, ◌<◌, ◌≡◌, ◌≢◌, ◌∙◌, true, List, ◌++◌, length, drop, arith, lt→ltb,
}
use lptstore.Disk.{Disk}
use lptstore.Protocol.{Pico}
use lptstore.Protocol.Sectors.{IsReady}
use lptstore.Host.{ok, lpt_read}
use lptstore.Host.Laws.{>>=-ok}
use lptstore.Session.{cable_peer}
use lptstore.Session.Read.{idle, Reads, HasAll, sectors}
use lptstore.Session.Refused.{lpt_read-refused}
use lptstore.Driver.{Driver, has_unit}
use lptstore.Driver.Requests.{
  Request, drive_init, done, error, bad_sector, force_init, dos_error, finish, read_block,
  lpt_driver,
}
use lptstore.Driver.Laws.{drive_init-mounted}
use lptstore.Driver.Transfers.{lpt_driver-input}

module _ (D : Disk) (rh : Request) (content : ℕ → List ℕ) {IsGood : D.State → Type 0}
    {Has : ℕ → Type 0} (laws : Reads D rh.unit content IsGood Has) (at : ℕ)
    (refuses : (buff : List ℕ) (disk : D.State)
      → IsGood disk
      → (r : ℕ) × (buff' : List ℕ) × (disk' : D.State) × (D.read_sector rh.unit at buff disk
          ≡ (r, buff', disk'))
        × (r % 256 ≢ 0)) where
  -- Where the disk of a mounted unit reads the first `n` sectors of the request INPUT and refuses the
  -- next, the request ends with the status ERROR and the code of a bad sector, with those sectors in
  -- the memory, the memory behind them as it was and nothing else of the request changed; every unit is
  -- to be initialized before it is used again. (The target is ready at the start.)
  pub lpt_driver-refused :
      (n : ℕ) (d : Driver) (p : Pico D)
      → n < rh.count
      → rh.command ≡ 4
      → rh.unit < 16
      → has_unit d.disk_initialized rh.unit ≡ true
      → rh.start < 2 ^ 16
      → at ≡ (rh.start + n) % 2 ^ 16
      → HasAll Has n rh.start
      → length rh.dta ≡ rh.count * 512
      → IsReady D p
      → IsGood p.disk
      → (d' : Driver) × (q : Pico D) × (lpt_driver (cable_peer D) d rh (idle D p)
          ≡ ok
              (
                d',
                record rh {
                  dta = sectors content n rh.start ++ drop (n * 512) rh.dta;
                  status = done + error + bad_sector;
                },
              )
              (idle D q))
        × ((i : ℕ) → i < 16 → d'.init_needed i ≡ true)
  unfolding read_block finish dos_error force_init
  lpt_driver-refused n d p fewer input small mounted start place has size ready good =
      let (d', init, _, _) = drive_init-mounted (cable_peer D) d rh (idle D p) small mounted in
      let (q, run) =
        lpt_read-refused D rh.unit content laws at refuses n rh.count rh.start rh.dta p fewer
          (omega arith) start place has size ready good in
      (
        force_init d',
        q,
        lpt_driver-input (cable_peer D) d rh (idle D p) input
            ∙ >>=-ok (drive_init (cable_peer D) d rh) _ init
            ∙ >>=-ok (lpt_read (cable_peer D) rh.count rh.unit rh.start rh.dta) _ run,
        λ i h. rw (lt→ltb i 16 h),
      )
