-- ===== src/Usb/Faults.antt =====
-- Where read_sector of pico/msc_app.c returns old bytes, and where it never returns.
use lptstore.Prelude.{
  ℕ, ◌+◌, ◌%◌, ◌^◌, ◌≡◌, refl, ap, ◌∙◌, Bool, true, false, List, ◌==◌, if◌then◌else◌, none, arith,
  ◌&&◌, ◌<◌, ==_refl,
}
use lptstore.Usb.{
  refused, finished, status_result, Stick, Usb, settle, returns, hangs, fetch_ahead, fetch,
  read_sector, write_sector,
}
use lptstore.Usb.Settle.{
  Reliable, Coherent, settle-lba, settle-inserted, settle-pending, settle-idle, if_not,
}
use lptstore.Usb.Coherence.{fetch_ahead-Coherent, read_sector_ready, fetch_hit}

module _ {T : Stick} {view : T.State → ℕ → List ℕ} (reliable : Reliable T view) where
  -- A write of the very sector that was fetched ahead, and a read of it next, give back the sector as it
  -- was before the write, although the stick took the new bytes: the buffer is not invalidated.
  pub read_sector-stale :
      (early : Bool) (bytes buff : List ℕ) (u : Usb) (s : T.State)
      → u.prefetching_lba < 0xffff_ffff
      → Coherent (view s) u
      → (u' : Usb) × (s' : T.State) × (v : Usb) × (t : T.State) × (write_sector T u.prefetching_lba
            bytes u s
          ≡ (0, u', s'))
        × (view s' u.prefetching_lba ≡ bytes)
        × (read_sector T early u.prefetching_lba buff u' s'
            ≡ returns 0 (view s u.prefetching_lba) v t)
  unfolding write_sector
  read_sector-stale early bytes buff u s small coherent =
      let (s', e, written) = reliable.writes u.prefetching_lba bytes s in
      let u' = record (settle u) { result = 0; prefetching_complete = true } in
      let idle = settle-idle u' (settle-pending u) in
      let here = settle-inserted u ∙ coherent.inserted in
      let (v, t, ahead, _, _) =
        fetch_ahead-Coherent reliable early u.prefetching_lba u'.prefetching_buff u' s' here refl in
      (
        u',
        s',
        v,
        t,
        rw (write_sector, e) (if_not u.usb_disk_inserted _ _ coherent.inserted),
        written u.prefetching_lba
            ∙ ap (λ b. if b then bytes else view s u.prefetching_lba) (==_refl u.prefetching_lba),
        read_sector_ready reliable early u.prefetching_lba buff u' s' here
              (ap (λ w. w.prefetching_complete) idle)
            ∙ ap (λ w. fetch T early u.prefetching_lba buff w s') idle
            ∙ fetch_hit reliable early u.prefetching_lba buff u' s'
                (rw (settle-lba u) (hit u.prefetching_lba))
            ∙ ahead
            ∙ ap (λ b. returns 0 b v t) (coherent.same small),
      )
    where
      hit : (n : ℕ) → ((n == n) && true) ≡ true
      hit n = ground arith

module _ (T : Stick) where
  -- A fetch ahead that neither runs nor has run.
  IsStuck : Usb → Type 0
  IsStuck u = (u.usb_disk_inserted ≡ true) × (u.pending ≡ none) × (u.prefetching_complete ≡ false)

  read_sector-IsStuck :
      (early : Bool) (sector : ℕ) (buff : List ℕ) (u : Usb) (s : T.State)
      → IsStuck u
      → read_sector T early sector buff u s ≡ hangs
  unfolding read_sector IsStuck
  read_sector-IsStuck early sector buff u s (inserted, idle, busy) =
      if_not u.usb_disk_inserted _ _ inserted
      ∙ ap (λ (v : Usb). if v.prefetching_complete then fetch T early sector buff v s else hangs)
          (settle-idle u idle)
      ∙ ap (λ b. if b then fetch T early sector buff u s else hangs) busy

  write_sector-refused :
      (sector : ℕ) (buff : List ℕ) (u : Usb) (s s' : T.State)
      → u.usb_disk_inserted ≡ true
      → T.write10 sector buff s ≡ refused s'
      → write_sector T sector buff u s ≡ (1, u, s')
  unfolding write_sector
  write_sector-refused sector buff u s s' inserted not_taken =
      rw (write_sector, not_taken) (if_not u.usb_disk_inserted _ _ inserted)

  write_sector-finished :
      (sector : ℕ) (buff : List ℕ) (u : Usb) (s s' : T.State) (status : ℕ)
      → u.usb_disk_inserted ≡ true
      → T.write10 sector buff s ≡ finished status tt s'
      → (write_sector T sector buff u s).1.prefetching_complete ≡ true
  unfolding write_sector
  write_sector-finished sector buff u s s' status inserted yes_taken =
      let done = record (settle u) { result = status_result status; prefetching_complete = true } in
      let e : write_sector T sector buff u s ≡ (status_result status, done, s') =
        rw (write_sector, yes_taken) (if_not u.usb_disk_inserted _ _ inserted) in
      ap (λ (q : ℕ × Usb × T.State). q.1.prefetching_complete) e

  -- Where the stick refuses the fetch ahead of a read of the sector that was fetched ahead, read_sector
  -- returns 1 and leaves prefetching_complete at 0. No read that is made next returns while the stick
  -- is in, nor one behind a write that the stick refuses; a write that it takes, whatever its status,
  -- sets prefetching_complete again. (The callback of the fetch ahead before has run, with status 0.)
  pub read_sector-hangs :
      (early : Bool) (sector : ℕ) (buff : List ℕ) (u : Usb) (s s' : T.State)
      → u.usb_disk_inserted ≡ true
      → u.pending ≡ none
      → u.prefetching_complete ≡ true
      → u.prefetching_lba ≡ sector
      → u.result ≡ 0
      → T.read10 ((sector + 1) % 2 ^ 32) s ≡ refused s'
      → (u' : Usb) × (read_sector T early sector buff u s ≡ returns 1 u.prefetching_buff u' s')
        × ((early' : Bool) (next : ℕ) (into : List ℕ) (t : T.State)
            → read_sector T early' next into u' t ≡ hangs)
        × ((at : ℕ) (bytes : List ℕ) (t t' : T.State)
            → T.write10 at bytes t ≡ refused t'
            → write_sector T at bytes u' t ≡ (1, u', t'))
        × ((at : ℕ) (bytes : List ℕ) (t t' : T.State) (status : ℕ)
            → T.write10 at bytes t ≡ finished status tt t'
            → (write_sector T at bytes u' t).1.prefetching_complete ≡ true)
  unfolding fetch_ahead fetch read_sector write_sector IsStuck
  read_sector-hangs early sector buff u s s' inserted idle complete here passed refusal =
      let u' = record u { prefetching_lba = (sector + 1) % 2 ^ 32; prefetching_complete = false } in
      let hit : (u.prefetching_lba == sector && u.result == 0) ≡ true =
        rw (here, passed) (same_sector sector) in
      (
        u',
        if_not u.usb_disk_inserted _ _ inserted
            ∙ ap
                (λ (v : Usb).
                  if v.prefetching_complete then fetch T early sector buff v s else hangs)
                (settle-idle u idle)
            ∙ ap (λ b. if b then fetch T early sector buff u s else hangs) complete
            ∙ rw (fetch, hit, fetch_ahead, refusal),
        λ early' next into t. read_sector-IsStuck early' next into u' t (inserted, idle, refl),
        λ at bytes t t' not_taken. write_sector-refused at bytes u' t t' inserted not_taken,
        λ at bytes t t' status yes_taken.
            write_sector-finished at bytes u' t t' status inserted yes_taken,
      )
    where
      same_sector : (n : ℕ) → ((n == n) && true) ≡ true
      same_sector n = ground arith
