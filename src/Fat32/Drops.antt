-- ===== src/Fat32/Drops.antt =====
-- A disk is dropped from the arrays.
use lptstore.Prelude.{
  ℕ, ◌≡◌, ◌≢◌, ◌<◌, ◌⊎◌, inl, inr, refl, ◌∙◌, arith, Bool-cases, ◌==◌, get_or, set, length-set,
  get_or-set_hit, get_or-set_miss,
}
use lptstore.Fat32.{Fat32, Disks, nr_disks, get_lba}
use lptstore.Fat32.Verdicts.{Within}
use lptstore.Fat32.Listing.{IsListed}

-- A disk is dropped: both arrays have 0 for it.
pub dropped-IsListed :
    (clusters bits : ℕ) (f : Fat32) (i : ℕ) (d : Disks)
    → i < nr_disks
    → IsListed clusters bits f d
    → IsListed clusters bits f
        (record d { disk_lba = set d.disk_lba i 0; disk_cluster = set d.disk_cluster i 0 })
dropped-IsListed clusters bits f i d within is = record {
  lbas = length-set d.disk_lba i 0 ∙ is.lbas;
  starts = length-set d.disk_cluster i 0 ∙ is.starts;
  listed = λ j. elim (Bool-cases (j == i)) [
    | inl e ↦ here j (ground arith)
    | inr e ↦ there j (ground arith)
  ];
  below = λ j. elim (Bool-cases (j == i)) [
    | inl e ↦ below_here j (ground arith)
    | inr e ↦ below_there j (ground arith)
  ];
  config_below = is.config_below;
  bitmap = is.bitmap;
}
  where
    here :
        (j : ℕ)
        → j ≡ i
        → (get_or (set d.disk_lba i 0) j 0 ≡ 0)
          ⊎ (get_or (set d.disk_lba i 0) j 0 ≡ get_lba f (get_or (set d.disk_cluster i 0) j 0))
    here j e = rw (e, get_or-set_hit d.disk_lba i 0 0 (omega (arith, is.lbas))) (inl refl)

    there :
        (j : ℕ)
        → j ≢ i
        → (get_or (set d.disk_lba i 0) j 0 ≡ 0)
          ⊎ (get_or (set d.disk_lba i 0) j 0 ≡ get_lba f (get_or (set d.disk_cluster i 0) j 0))
    there j e =
        rw (get_or-set_miss d.disk_lba i j 0 0 e, get_or-set_miss d.disk_cluster i j 0 0 e)
          (is.listed j)

    below_here : (j : ℕ) → j ≡ i → Within clusters (get_or (set d.disk_cluster i 0) j 0)
    below_here j e =
        rw (e, get_or-set_hit d.disk_cluster i 0 0 (omega (arith, is.starts))) (λ none. absurd cc)

    below_there : (j : ℕ) → j ≢ i → Within clusters (get_or (set d.disk_cluster i 0) j 0)
    below_there j e = rw (get_or-set_miss d.disk_cluster i j 0 0 e) (is.below j)
