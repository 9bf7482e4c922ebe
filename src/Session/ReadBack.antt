-- ===== src/Session/ReadBack.antt =====
-- What LPTWrite has written LPTRead gives back.
use lptstore.Prelude.{
  ℕ, zero, suc, ◌+◌, ◌-◌, ◌*◌, ◌%◌, ◌^◌, ◌≤◌, ◌<◌, ◌≡◌, refl, ap, ◌∙◌, false, List, [], ◌∷◌, length,
  arith, take, drop, length-drop, take-append-drop, ◌==◌, if◌then◌else◌, ==_refl,
}
use lptstore.Disk.{Disk}
use lptstore.Protocol.{Pico}
use lptstore.Protocol.Sectors.{IsReady, IsSector}
use lptstore.Protocol.Writes.{IsBlock}
use lptstore.Host.{ok, lpt_write, lpt_read, res_ok}
use lptstore.Session.{cable_peer}
use lptstore.Session.Read.{idle, sectors, Reads, HasAll, lpt_read-sectors}
use lptstore.Session.Store.{update, Store, writing, rewritten, AllBlocks, lpt_write-rewrites}

-- A sector behind the last one written is as before.
rewritten-beyond :
    (count lbn : ℕ) (src : List ℕ) (f : ℕ → List ℕ) (j : ℕ)
    → lbn < 2 ^ 16
    → j < 2 ^ 16
    → count ≤ (j + 2 ^ 16 - lbn) % 2 ^ 16
    → rewritten count lbn src f j ≡ f j
unfolding rewritten
rewritten-beyond zero lbn src f j hl hj h = refl
rewritten-beyond (suc count) lbn src f j hl hj h =
    let differs : (j == lbn) ≡ false = ground arith in
    rewritten-beyond count _ _ _ j (omega arith) hj (omega arith)
    ∙ ap (λ b. if b then take 512 src else f j) differs

pub on_range :
    (Has : ℕ → Type 0) (count lbn : ℕ) (src : List ℕ) (f : ℕ → List ℕ)
    → count ≤ 2 ^ 16
    → lbn < 2 ^ 16
    → length src ≡ count * 512
    → AllBlocks IsSector count src
    → HasAll Has count lbn
    → (sectors (rewritten count lbn src f) count lbn ≡ src)
      × HasAll (λ j. Has j × IsSector (rewritten count lbn src f j)) count lbn
unfolding rewritten
on_range Has zero lbn [] f few hl size blocks has = (refl, tt)
on_range Has zero lbn (x ∷ src) f few hl size blocks has = absurd (omega arith)
on_range Has (suc count) lbn src f few hl size (is, rest) (here, later) =
    let f' = update f lbn (take 512 src) in
    let (behind, has) =
      on_range Has count ((lbn + 1) % 2 ^ 16) (drop 512 src) f' (omega arith) (omega arith)
        (omega (arith, length-drop 512 src)) rest later in
    let first : rewritten count ((lbn + 1) % 2 ^ 16) (drop 512 src) f' lbn ≡ take 512 src =
      rewritten-beyond count _ _ f' lbn (omega arith) hl (omega arith)
      ∙ ap (λ b. if b then take 512 src else f lbn) (==_refl lbn) in
    (rw (first, behind) (take-append-drop 512 src), ((here, rw first is), has))

pub blocks-AllBlocks :
    (count : ℕ) (src : List ℕ) → AllBlocks IsSector count src → AllBlocks IsBlock count src
blocks-AllBlocks zero src h = tt
blocks-AllBlocks (suc count) src (h, hs) =
    (record { sized = h.sized; bytes = h.bytes }, blocks-AllBlocks count (drop 512 src) hs)

module _ (D : Disk) (unit : ℕ) (store : Store D unit) where
  open store use {Room, Has, view, reads}

  -- On a unit that keeps its sectors and has room for them, the memory that LPTWrite sends to the disk
  -- is what LPTRead returns next, over whatever its buffer held; both end with RES_OK. The sectors are
  -- at most 2 ^ 16, all of them there, LPTCompress needs no more than 512 bytes for each, and the
  -- target is ready at the start.
  pub lpt_read-lpt_write :
      (count lbn n : ℕ) (src dest : List ℕ) (p : Pico D)
      → unit < 256
      → lbn < 2 ^ 16
      → count ≤ 2 ^ 16
      → HasAll Has count lbn
      → length src ≡ count * 512
      → length dest ≡ count * 512
      → AllBlocks IsSector count src
      → IsReady D p
      → Room (count + n) p.disk
      → (q q' : Pico D) × (lpt_write (cable_peer D) count unit lbn src (idle D p)
          ≡ ok res_ok (idle D q))
        × (lpt_read (cable_peer D) count unit lbn dest (idle D q) ≡ ok (res_ok, src) (idle D q'))
  lpt_read-lpt_write count lbn n src dest p hu hl few has size size' blocks ready room =
      let (q, run, ready', room', seen) =
        lpt_write-rewrites D unit (writing store) count lbn n src p hu hl has
          (blocks-AllBlocks count src blocks) ready room in
      let content = rewritten count lbn src (view p.disk) in
      let (whole, has') = on_range Has count lbn src (view p.disk) few hl size blocks has in
      let (q', run', _, _) =
        lpt_read-sectors D unit content (laws content) count lbn dest q hu hl has' size' ready'
          (room', seen) in
      (q, q', run, run' ∙ ap (λ (bytes : List ℕ). ok (res_ok, bytes) (idle D q')) whole)
    where
      laws :
          (content : ℕ → List ℕ)
          → Reads D unit content
              (λ d. Room n d × ((j : ℕ) → Has j → view d j ≡ content j))
              (λ j. Has j × IsSector (content j))
      laws content = record {
        sector = λ lba h. h.1;
        reads = λ lba buff disk good h.
            (let (disk', read, room', same) = reads lba n buff disk good.0 h.0 in
              (disk', rw (← good.1 lba h.0) read, (room', λ j hj. same j hj ∙ good.1 j hj)));
      }
