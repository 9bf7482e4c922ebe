-- ===== src/Session/Store.antt =====
-- What LPTRead and LPTWrite make of a disk that keeps what is written to it.
use lptstore.Prelude.{
  ℕ, zero, suc, ◌+◌, ◌%◌, ◌^◌, ◌<◌, ◌≡◌, refl, ap, subst, ◌∙◌, List, arith, take, drop, ◌==◌,
  if◌then◌else◌,
}
use lptstore.Disk.{Disk}
use lptstore.Protocol.{Pico}
use lptstore.Protocol.Sectors.{IsReady}
use lptstore.Protocol.Writes.{IsBlock, stored}
use lptstore.Host.{ok, write_round, lpt_write, res_ok}
use lptstore.Host.Laws.{>>=-ok}
use lptstore.Session.{cable_peer}
use lptstore.Session.Read.{idle, HasAll}
use lptstore.Session.Write.{stored-IsReady, write_round-stores}

-- The disk with `lba` holding `sector`.
abbrev pub update : (ℕ → List ℕ) → ℕ → List ℕ → ℕ → List ℕ
update view lba sector j = if j == lba then sector else view j

-- A unit that keeps its sectors: `view` is what they hold, `Room n` says that the disk is sound and
-- can take n writes more, and `Has` which sectors there are.
pub record Store (D : Disk) (unit : ℕ) : Type 1 where
  pub Room : ℕ → D.State → Type 0
  pub Has : ℕ → Type 0
  pub view : D.State → ℕ → List ℕ
  pub reads :
      (lba n : ℕ) (buff : List ℕ) (disk : D.State)
      → Room n disk
      → Has lba
      → (disk' : D.State) × (D.read_sector unit lba buff disk ≡ (0, view disk lba, disk'))
        × Room n disk'
        × ((j : ℕ) → Has j → view disk' j ≡ view disk j)
  pub writes :
      (lba n : ℕ) (sector : List ℕ) (disk : D.State)
      → Room (suc n) disk
      → Has lba
      → IsBlock sector
      → (disk' : D.State) × (D.write_sector unit lba sector disk ≡ (0, disk'))
        × Room n disk'
        × ((j : ℕ) → Has j → view disk' j ≡ update (view disk) lba sector j)

-- The half of it that writing needs.
pub record Writes (D : Disk) (unit : ℕ) : Type 1 where
  pub Room : ℕ → D.State → Type 0
  pub Has : ℕ → Type 0
  pub view : D.State → ℕ → List ℕ
  pub writes :
      (lba n : ℕ) (sector : List ℕ) (disk : D.State)
      → Room (suc n) disk
      → Has lba
      → IsBlock sector
      → (disk' : D.State) × (D.write_sector unit lba sector disk ≡ (0, disk'))
        × Room n disk'
        × ((j : ℕ) → Has j → view disk' j ≡ update (view disk) lba sector j)

abbrev pub writing : {D : Disk} {unit : ℕ} → Store D unit → Writes D unit
writing store = record {
  Room = store.Room;
  Has = store.Has;
  view = store.view;
  writes = store.writes;
}

-- The view after `count` sectors of memory are written from `lbn` on.
unfoldable pub rewritten : ℕ → ℕ → List ℕ → (ℕ → List ℕ) → ℕ → List ℕ
rewritten zero lbn src view = view
rewritten (suc count) lbn src view =
    rewritten count ((lbn + 1) % 2 ^ 16) (drop 512 src) (update view lbn (take 512 src))

abbrev pub AllBlocks {κ} : (List ℕ → Type κ) → ℕ → List ℕ → Type κ
AllBlocks P zero src = Unit
AllBlocks P (suc count) src = P (take 512 src) × AllBlocks P count (drop 512 src)

module _ (D : Disk) (unit : ℕ) (store : Writes D unit) where
  open store use {Room, Has, view, writes}

  rewritten-cong :
      (count lbn : ℕ) (src : List ℕ) (f g : ℕ → List ℕ)
      → ((j : ℕ) → Has j → f j ≡ g j)
      → (j : ℕ) → Has j
      → rewritten count lbn src f j ≡ rewritten count lbn src g j
  unfolding rewritten
  rewritten-cong zero lbn src f g h j has = h j has
  rewritten-cong (suc count) lbn src f g h j has =
      rewritten-cong count _ _ _ _
        (λ i hi. ap (λ (s : List ℕ). if i == lbn then take 512 src else s) (h i hi)) j has

  -- LPTWrite over the cable ends with RES_OK, and the unit then holds the memory, sector by sector,
  -- with the other sectors as before.
  pub lpt_write-rewrites :
      (count lbn n : ℕ) (src : List ℕ) (p : Pico D)
      → unit < 256
      → lbn < 2 ^ 16
      → HasAll Has count lbn
      → AllBlocks IsBlock count src
      → IsReady D p
      → Room (count + n) p.disk
      → (q : Pico D) × (lpt_write (cable_peer D) count unit lbn src (idle D p)
          ≡ ok res_ok (idle D q))
        × IsReady D q
        × Room n q.disk
        × ((j : ℕ) → Has j → view q.disk j ≡ rewritten count lbn src (view p.disk) j)
  unfolding lpt_write stored rewritten
  lpt_write-rewrites zero lbn n src p hu hl has blocks ready room = (
    p,
    refl,
    ready,
    (let e : 0 + n ≡ n = omega arith in subst (λ m. Room m p.disk) e room),
    λ j h. refl,
  )
  lpt_write-rewrites (suc count) lbn n src p hu hl (here, later) (is, rest) ready room =
      let (disk, done, room', seen) =
        writes lbn (count + n) (take 512 src) p.disk (more room) here is in
      let p' = stored D p (take 512 src) disk in
      let (q, run', ready', room'', seen') =
        lpt_write-rewrites count ((lbn + 1) % 2 ^ 16) n (drop 512 src) p' hu (omega arith) later
          rest (stored-IsReady D p (take 512 src) disk is ready) room' in
      let run : lpt_write (cable_peer D) (suc count) unit lbn src (idle D p)
          ≡ ok res_ok (idle D q) =
        >>=-ok (write_round (cable_peer D) unit lbn (take 512 src)) _
          (write_round-stores D p unit lbn (take 512 src) disk is ready hu hl done)
        ∙ run' in
      (q, run, ready', room'', λ j hj. seen' j hj ∙ rewritten-cong count _ _ _ _ seen j hj)
    where
      more : Room (suc count + n) p.disk → Room (suc (count + n)) p.disk
      more = let e : suc count + n ≡ suc (count + n) = omega arith in subst (λ m. Room m p.disk) e
