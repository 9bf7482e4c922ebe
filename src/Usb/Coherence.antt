-- ===== src/Usb/Coherence.antt =====
-- read_sector and write_sector of pico/msc_app.c over a stick that works.
use lptstore.Prelude.{
  ℕ, ◌+◌, ◌%◌, ◌^◌, ◌≡◌, ◌≢◌, inl, inr, refl, sym, ap, ◌∙◌, Bool, true, false, not, List, ◌==◌,
  if◌then◌else◌, some, ◌&&◌, Bool-cases, ◌<◌, ==→eq, subst,
}
use lptstore.Usb.{
  finished, Stick, Usb, settle, returns, hangs, fetch_ahead, fetch, read_sector, write_sector,
}
use lptstore.Usb.Settle.{
  Reliable, Coherent, settle-lba, settle-inserted, settle-pending, if_not, rest-Coherent, and-left,
  ==-other,
}

module _ {T : Stick} {view : T.State → ℕ → List ℕ} (reliable : Reliable T view) where
  pub fetch_ahead-Coherent :
      (early : Bool) (sector : ℕ) (buff : List ℕ) (u : Usb) (s : T.State)
      → u.usb_disk_inserted ≡ true
      → u.result ≡ 0
      → (u' : Usb) × (s' : T.State) × (fetch_ahead T early sector buff u s ≡ returns 0 buff u' s')
        × Coherent (view s') u'
        × (view s' ≡ view s)
  unfolding fetch_ahead settle
  fetch_ahead-Coherent early sector buff u s inserted good =
      let next = (sector + 1) % 2 ^ 32 in
      let (s', e, same) = reliable.reads next s in
      let v = record u {
        prefetching_lba = next;
        prefetching_complete = false;
        pending = some (0, view s next);
      } in
      let fresh = ap (λ f. f next) (sym same) in
      elim (Bool-cases early) [
        | inl soon ↦ (
          settle v,
          s',
          rw (fetch_ahead, e, soon),
          record { inserted = inserted; ready = refl; passed = refl; same = λ _. fresh },
          same,
        )
        | inr late ↦ (
          v,
          s',
          rw (fetch_ahead, e, late, good),
          record { inserted = inserted; ready = refl; passed = refl; same = λ _. fresh },
          same,
        )
      ]

  pub read_sector_ready :
      (early : Bool) (sector : ℕ) (buff : List ℕ) (u : Usb) (s : T.State)
      → u.usb_disk_inserted ≡ true
      → (settle u).prefetching_complete ≡ true
      → read_sector T early sector buff u s ≡ fetch T early sector buff (settle u) s
  unfolding read_sector
  read_sector_ready early sector buff u s inserted ready =
      ap
        (λ b.
          if not b
          then returns 1 buff u s
          else (if (settle u).prefetching_complete
              then fetch T early sector buff (settle u) s
              else hangs))
        inserted
      ∙ ap (λ b. if b then fetch T early sector buff (settle u) s else hangs) ready

  pub fetch_hit :
      (early : Bool) (sector : ℕ) (buff : List ℕ) (u : Usb) (s : T.State)
      → (u.prefetching_lba == sector && u.result == 0) ≡ true
      → fetch T early sector buff u s ≡ fetch_ahead T early sector u.prefetching_buff u s
  unfolding fetch
  fetch_hit early sector buff u s hit = rw hit

  fetch_miss :
      (early : Bool) (sector : ℕ) (buff : List ℕ) (u : Usb) (s s' : T.State)
      → (u.prefetching_lba == sector && u.result == 0) ≡ false
      → T.read10 sector s ≡ finished 0 (view s sector) s'
      → fetch T early sector buff u s
        ≡ fetch_ahead T early sector
            (view s sector)
            (record u { result = 0; prefetching_complete = true })
            s'
  unfolding fetch
  fetch_miss early sector buff u s s' miss e = rw (miss, e)

  -- Over a stick that accepts every command, read_sector of a coherent state returns, with no error and
  -- the stick's sector, whenever the callback of the fetch ahead runs; the state is coherent again and
  -- the stick's content is what it was.
  pub read_sector-Coherent :
      (early : Bool) (sector : ℕ) (buff : List ℕ) (u : Usb) (s : T.State)
      → sector < 0xffff_ffff
      → Coherent (view s) u
      → (u' : Usb) × (s' : T.State) × (read_sector T early sector buff u s
          ≡ returns 0 (view s sector) u' s')
        × Coherent (view s') u'
        × (view s' ≡ view s)
  read_sector-Coherent early sector buff u s small coherent =
      let v = settle u in
      elim (Bool-cases (v.prefetching_lba == sector && v.result == 0)) [
        | inl hit ↦
            (let here : u.prefetching_lba ≡ sector =
                sym (settle-lba u) ∙ ==→eq v.prefetching_lba sector (and-left _ _ hit) in
              let held : v.prefetching_buff ≡ view s sector =
                coherent.same (rw here small) ∙ ap (view s) here in
              let (u', s', e, next, same) =
                fetch_ahead-Coherent early sector v.prefetching_buff v s
                  (settle-inserted u ∙ coherent.inserted) coherent.passed in
              (
                u',
                s',
                read_sector_ready early sector buff u s coherent.inserted coherent.ready
                    ∙ fetch_hit early sector buff v s hit
                    ∙ e
                    ∙ ap (λ bytes. returns 0 bytes u' s') held,
                next,
                same,
              ))
        | inr miss ↦
            (let (s1, e1, same1) = reliable.reads sector s in
              let w = record v { result = 0; prefetching_complete = true } in
              let (u', s', e, next, same) =
                fetch_ahead-Coherent early sector (view s sector) w s1
                  (settle-inserted u ∙ coherent.inserted) refl in
              (
                u',
                s',
                read_sector_ready early sector buff u s coherent.inserted coherent.ready
                    ∙ fetch_miss early sector buff v s s1 miss e1
                    ∙ e,
                next,
                same ∙ same1,
              ))
      ]

  -- Over such a stick, write_sector of any other sector than the one fetched ahead returns 0, writes the
  -- sector and no other, and leaves the state coherent and the fetch ahead where it was.
  pub write_sector-Coherent :
      (sector : ℕ) (bytes : List ℕ) (u : Usb) (s : T.State)
      → sector ≢ u.prefetching_lba
      → Coherent (view s) u
      → (u' : Usb) × (s' : T.State) × (write_sector T sector bytes u s ≡ (0, u', s'))
        × Coherent (view s') u'
        × ((j : ℕ) → view s' j ≡ (if j == sector then bytes else view s j))
        × (u'.prefetching_lba ≡ u.prefetching_lba)
  unfolding write_sector
  write_sector-Coherent sector bytes u s other coherent =
      let (s', e, written) = reliable.writes sector bytes s in
      let kept = λ (small : (settle u).prefetching_lba < 0xffff_ffff).
        coherent.same (subst (λ n. n < 0xffff_ffff) (settle-lba u) small)
        ∙ sym (
            written u.prefetching_lba
            ∙ ap (λ b. if b then bytes else view s u.prefetching_lba)
                (==-other u.prefetching_lba sector other))
        ∙ ap (view s') (sym (settle-lba u)) in
      (
        record (settle u) { result = 0; prefetching_complete = true },
        s',
        rw (write_sector, e) (if_not u.usb_disk_inserted _ _ coherent.inserted),
        rest-Coherent (view s') _ (settle-pending u) (settle-inserted u ∙ coherent.inserted) refl
            refl kept,
        written,
        settle-lba u,
      )
