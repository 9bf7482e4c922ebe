-- ===== src/Fat32/Places.antt =====
-- Where the clusters of a volume lie, and what a round of file_has_gaps goes on to.
use native.Mathlib.Nat.{mul-add, eq_of_mul-eq-mul_left}
use lptstore.Prelude.{
  ℕ, zero, suc, ◌+◌, ◌-◌, ◌*◌, ◌/◌, ◌^◌, ◌≤◌, ◌<◌, ◌≡◌, subst, true, some, arith,
}
use lptstore.Fat32.{Fat32, u32, in_chain, get_lba, cluster_gap}
use lptstore.Fat32.Rounds.{cluster_gap-some}

-- The data area begins behind the tables, and ends before sector 2 ^ 32: `clusters` is one more than
-- the last number of a cluster.
pub record IsSized (f : Fat32) : Type 0 where
  pub clusters : ℕ
  pub few : clusters ≤ 0x0fff_fff0
  pub filled : 1 ≤ f.sectors_per_cluster
  pub behind : 2 * f.sectors_per_cluster ≤ f.reserved_sector_count + f.sectors_per_fat * 2
  pub fits :
      f.reserved_sector_count + f.sectors_per_fat * 2 + f.sectors_per_cluster * clusters < 2 ^ 32

module _ (f : Fat32) (sized : IsSized f) where
  abbrev pub base : ℕ
  base = f.reserved_sector_count + f.sectors_per_fat * 2

  pub spc_le :
      (c : ℕ)
      → c ≤ sized.clusters
      → f.sectors_per_cluster * c ≤ f.sectors_per_cluster * sized.clusters
  spc_le c h = grind arith

  -- The sector of the table that has the entry of a cluster.
  pub table_end : (c : ℕ) → c < sized.clusters → c / 128 + f.reserved_sector_count < 0xffff_ffff
  table_end c h =
      let far : sized.clusters ≤ f.sectors_per_cluster * sized.clusters =
        grind (arith, sized.filled) in
      omega (arith, far, sized.fits)

  get_lba-first : get_lba f 1 + 2 * f.sectors_per_cluster ≡ base + f.sectors_per_cluster * 1
  unfolding get_lba
  get_lba-first = omega (arith, sized.filled, sized.behind, sized.fits)

  get_lba-later :
      (c : ℕ) → c < sized.clusters → get_lba f (c + 2) ≡ base + f.sectors_per_cluster * c
  unfolding get_lba
  get_lba-later c h =
      let e : u32 (c + 2 + 2 ^ 32 - 2) ≡ c = omega arith in
      rw e (omega (arith, spc_le c (omega arith), sized.fits))

  pub get_lba-place :
      (c : ℕ)
      → 1 ≤ c
      → c < sized.clusters
      → get_lba f c + 2 * f.sectors_per_cluster ≡ base + f.sectors_per_cluster * c
  get_lba-place zero pos small = absurd (omega arith)
  get_lba-place (suc zero) pos small = get_lba-first
  get_lba-place (suc (suc k)) pos small =
      let e : k + 2 ≡ suc (suc k) = omega arith in
      rw (← e) (omega (arith, get_lba-later k (omega arith), mul-add f.sectors_per_cluster k 2))

  cancel : (p c : ℕ) → f.sectors_per_cluster * c ≡ f.sectors_per_cluster * suc p → c ≡ suc p
  cancel p c e = eq_of_mul-eq-mul_left f.sectors_per_cluster sized.filled c (suc p) e

  -- After cluster `p` the loop goes on to cluster `p + 1` alone.
  pub round :
      (p c last last' : ℕ)
      → 1 ≤ p
      → p < sized.clusters
      → c < sized.clusters
      → in_chain c ≡ true
      → last + 1 + f.sectors_per_cluster ≡ base + f.sectors_per_cluster * p
      → cluster_gap f.sectors_per_cluster (get_lba f c) 0 last ≡ some last'
      → (c ≡ suc p) × (last' + 1 + f.sectors_per_cluster ≡ base + f.sectors_per_cluster * c)
  round p c last last' pos small bound inside follows gap =
      let (low, high) = in_bounds in
      let at = get_lba-place c low (omega arith) in
      let (joins, ends) =
        cluster_gap-some (f.sectors_per_cluster - 1) (get_lba f c) 0 last last'
          (subst (λ n. cluster_gap n (get_lba f c) 0 last ≡ some last') count gap) in
      let top = spc_le p (omega arith) in
      let top' = spc_le c (omega arith) in
      let far : f.sectors_per_cluster ≤ f.sectors_per_cluster * p = grind arith in
      let next : f.sectors_per_cluster * c ≡ f.sectors_per_cluster * suc p = omega (
        arith,
        joins,
        top,
        top',
        far,
        at,
        follows,
        sized.fits,
        sized.behind,
        sized.filled,
        mul-add f.sectors_per_cluster p 1,
      ) in
      (cancel p c next, omega (arith, ends, at, top', sized.fits, sized.behind, sized.filled))
    where
      count : f.sectors_per_cluster ≡ suc (f.sectors_per_cluster - 1)
      count = omega (arith, sized.filled)

      in_bounds : (1 ≤ c) × (c < 0x0fff_fff0)
      in_bounds = ground arith

  -- Where a cluster's sectors end.
  pub last_place :
      (c last last' : ℕ)
      → c < sized.clusters
      → in_chain c ≡ true
      → cluster_gap f.sectors_per_cluster (get_lba f c) 0 last ≡ some last'
      → last' + 1 + f.sectors_per_cluster ≡ base + f.sectors_per_cluster * c
  last_place c last last' bound inside gap =
      let (low, high) = in_bounds in
      let at = get_lba-place c low (omega arith) in
      let (_, ends) =
        cluster_gap-some (f.sectors_per_cluster - 1) (get_lba f c) 0 last last'
          (subst (λ n. cluster_gap n (get_lba f c) 0 last ≡ some last') count gap) in
      let top = spc_le c (omega arith) in
      omega (arith, ends, at, top, sized.fits, sized.behind, sized.filled)
    where
      count : f.sectors_per_cluster ≡ suc (f.sectors_per_cluster - 1)
      count = omega (arith, sized.filled)

      in_bounds : (1 ≤ c) × (c < 0x0fff_fff0)
      in_bounds = ground arith

  -- A cluster's sectors lie below sector 2 ^ 32 - 1.
  pub cluster_end :
      (c : ℕ)
      → c < sized.clusters
      → in_chain c ≡ true
      → get_lba f c + f.sectors_per_cluster ≤ 0xffff_ffff
  cluster_end c bound inside =
      let (low, high) = in_bounds in
      omega
        (arith, get_lba-place c low (omega arith), spc_le c (omega arith), sized.fits, sized.filled)
    where
      in_bounds : (1 ≤ c) × (c < 0x0fff_fff0)
      in_bounds = ground arith
