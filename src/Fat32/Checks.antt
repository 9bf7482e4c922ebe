-- ===== src/Fat32/Checks.antt =====
-- The loop of init_disk over the disks it found: those whose file has gaps are dropped.
use Prim.Native.Nat.{bit_or}
use lptstore.Prelude.{
  ℕ, zero, suc, ◌+◌, ◌^◌, ◌≡◌, ◌≢◌, ◌<◌, ◌≤◌, ◌⊎◌, inl, inr, refl, sym, ap, subst, ◌∙◌, false, List,
  arith, Bool-cases, ◌==◌, get_or, set, get_or-set_hit, get_or-set_miss,
}
use lptstore.Fat32.{Medium, Fat32, Disks, Walk, ended, nr_disks, file_has_gaps}
use lptstore.Fat32.Volume.{check_disk, check_disks}
use lptstore.Fat32.Rounds.{SameVolume}
use lptstore.Fat32.Cache.{Holds, IsCached}
use lptstore.Fat32.Chains.{nth}
use lptstore.Fat32.Verdicts.{IsVolume, InChain}
use lptstore.Fat32.Decides.{gap_loop-Decides}
use lptstore.Fat32.Drives.{
  active_bits, active_bits-lt, active_bits-idle, active_bits-next, active_bits-drop, bit_or-above,
}
use lptstore.Fat32.Listing.{IsListed}
use lptstore.Fat32.Drops.{dropped-IsListed}

abbrev pub start : ℕ → Disks → ℕ × ℕ
start i d = (get_or d.disk_lba i 0, get_or d.disk_cluster i 0)

module _ {M : Medium} {content : ℕ → List ℕ} {Good : M.State → Type 0}
    (holds : Holds M content Good) (f : Fat32) (sized : IsVolume content f) where
  -- The clusters of the chain have consecutive numbers.
  abbrev pub InOnePiece : ℕ → Type 0
  InOnePiece c = (k : ℕ) → InChain holds f sized k c → nth holds f k c ≡ k + c

  -- Two clusters of the chain do not have consecutive numbers.
  abbrev pub HasGap : ℕ → Type 0
  HasGap c = (k : ℕ) × InChain holds f sized k c × (nth holds f k c ≢ k + c)

  -- Of a disk, its first sector and its first cluster before and behind the loop: it is as it was, and
  -- was not active or its file is in one piece; or it was active, its file has a gap, and it is not
  -- active any more.
  abbrev pub Sorted : ℕ × ℕ → ℕ × ℕ → Type 0
  Sorted (lba, c) b =
      ((b ≡ (lba, c)) × ((lba ≡ 0) ⊎ InOnePiece c)) ⊎ ((b.0 ≡ 0) × (lba ≢ 0) × HasGap c)

  abbrev Checked : ℕ → Disks → Walk (Fat32 × Disks × M.State) → Type 0
  Checked i d w =
      (g : Fat32) × (d' : Disks) × (t : M.State) × (w ≡ ended (g, d', t))
      × IsCached content g
      × SameVolume f g
      × IsListed sized.size.clusters (active_bits (i + 1) d'.disk_lba) f d'
      × Good t
      × Sorted (start i d) (start i d')
      × ((j : ℕ) → j ≢ i → start j d' ≡ start j d)

  pub counted :
      (bits bits' : ℕ) (d : Disks)
      → bits ≡ bits'
      → IsListed sized.size.clusters bits f d
      → IsListed sized.size.clusters bits' f d
  counted bits bits' d e is = subst (λ n. IsListed sized.size.clusters n f d) e is

  check_disk-Checked :
      (fuel i : ℕ) (g : Fat32) (d : Disks) (s : M.State)
      → 0x0fff_fff0 < fuel
      → i < nr_disks
      → IsCached content g
      → SameVolume f g
      → IsListed sized.size.clusters (active_bits i d.disk_lba) f d
      → Good s
      → Checked i d (check_disk M fuel i g d s)
  unfolding check_disk
  check_disk-Checked fuel i g d s enough within cached same is good =
      elim (Bool-cases (get_or d.disk_lba i 0 == 0)) [
        | inl e ↦ (
          g,
          d,
          s,
          rw e,
          cached,
          same,
          counted _ _ d (sym (active_bits-idle i d.disk_lba (ground arith))) is,
          good,
          inl (refl, inl (ground arith)),
          λ j other. refl,
        )
        | inr e ↦ active e
      ]
    where
      active : (get_or d.disk_lba i 0 == 0) ≡ false → Checked i d (check_disk M fuel i g d s)
      active e =
          let decided =
            gap_loop-Decides holds f sized fuel (get_or d.disk_cluster i 0) g s (is.below i) enough
              cached same good in
          let (r, h, t, run, verdict, cached', same', good') = decided in
          let found : file_has_gaps M fuel (get_or d.disk_cluster i 0) g s ≡ ended (r, h, t) =
            unfold file_has_gaps in run in
          elim verdict [
            | inl (good, all) ↦ (
              h,
              record d { disk_bitmap = bit_or d.disk_bitmap (2 ^ i) },
              t,
              rw (check_disk, e, found, good),
              cached',
              same',
              record {
                lbas = is.lbas;
                starts = is.starts;
                listed = is.listed;
                below = is.below;
                config_below = is.config_below;
                bitmap =
                    ap (λ bits. bit_or bits (2 ^ i)) is.bitmap
                    ∙ bit_or-above i _ (active_bits-lt i d.disk_lba)
                    ∙ sym (active_bits-next i d.disk_lba e);
              },
              good',
              inl (refl, inr (λ k reached. all k reached)),
              λ j other. refl,
            )
            | inr (bad, k, reached, gap) ↦ (
              h,
              record d { disk_lba = set d.disk_lba i 0; disk_cluster = set d.disk_cluster i 0 },
              t,
              rw (check_disk, e, found, bad),
              cached',
              same',
              counted _ _ _ (sym (active_bits-drop i d.disk_lba (omega (arith, is.lbas))))
                  (dropped-IsListed sized.size.clusters _ f i d within is),
              good',
              inr (
                get_or-set_hit d.disk_lba i 0 0 (omega (arith, is.lbas)),
                (ground (arith, e)),
                (k, reached, gap),
              ),
              λ j other.
                  rw
                    (
                      get_or-set_miss d.disk_lba i j 0 0 other,
                      get_or-set_miss d.disk_cluster i j 0 0 other,
                    )
                    refl,
            )
          ]

  pub check_disks-AllBelow :
      (fuel n i : ℕ) (g : Fat32) (first d : Disks) (s : M.State)
      → 0x0fff_fff0 < fuel
      → n + i ≤ nr_disks
      → IsCached content g
      → SameVolume f g
      → IsListed sized.size.clusters (active_bits i d.disk_lba) f d
      → Good s
      → ((j : ℕ) → j < i → Sorted (start j first) (start j d))
      → ((j : ℕ) → i ≤ j → start j d ≡ start j first)
      → (h : Fat32) × (d' : Disks) × (t : M.State) × (check_disks M fuel n i g d s
          ≡ ended (h, d', t))
        × IsCached content h
        × SameVolume f h
        × IsListed sized.size.clusters (active_bits (n + i) d'.disk_lba) f d'
        × Good t
        × ((j : ℕ) → j < n + i → Sorted (start j first) (start j d'))
  unfolding check_disks
  check_disks-AllBelow fuel zero i g first d s enough room cached same is good all rest = (
    g,
    d,
    s,
    refl,
    cached,
    same,
    counted _ _ d (let e : i ≡ 0 + i = omega arith in ap (λ k. active_bits k d.disk_lba) e) is,
    good,
    λ j below. all j (omega arith),
  )
  check_disks-AllBelow fuel (suc n) i g first d s enough room cached same is good all rest =
      let (g', d', s', run, cached', same', is', good', here, kept) =
        check_disk-Checked fuel i g d s enough (omega arith) cached same is good in
      let upto : (j : ℕ) → j < i + 1 → Sorted (start j first) (start j d') = λ j below.
        elim (Bool-cases (j == i)) [
          | inl e ↦
              let back : i ≡ j = ground arith in
              subst (λ k. Sorted (start k first) (start k d')) back
                (subst (λ a. Sorted a (start i d')) (rest i (omega arith)) here)
          | inr e ↦
              subst (Sorted (start j first)) (sym (kept j (ground arith))) (all j (ground arith))
        ] in
      let (h, d'', t, run', cached'', same'', is'', good'', done) =
        check_disks-AllBelow fuel n (i + 1) g' first d' s' enough (omega arith) cached' same' is'
          good' upto (λ j above. kept j (omega arith) ∙ rest j (omega arith)) in
      (
        h,
        d'',
        t,
        rw (check_disks, run) run',
        cached'',
        same'',
        counted _ _ d''
            (let e : n + (i + 1) ≡ suc n + i = omega arith in
              ap (λ k. active_bits k d''.disk_lba) e)
            is'',
        good'',
        λ j below. done j (omega arith),
      )
