-- ===== src/Fat32/Chains.antt =====
-- What file_has_gaps says of a file: its clusters lie one behind the other on the medium.
use lptstore.Prelude.{
  ℕ, zero, suc, ◌+◌, ◌-◌, ◌*◌, ◌^◌, ◌≤◌, ◌<◌, ◌≡◌, ◌≢◌, ◌⊎◌, refl, sym, ◌∙◌, true, List, Option,
  none, some, arith,
}
use lptstore.Fat32.Rounds.{SameVolume, cluster_gap-some, get_lba-same, loop_gap, loop_on}
use lptstore.Fat32.{
  Medium, Fat32, ended, u32, in_chain, get_lba, cluster_gap, gap_loop, file_has_gaps,
}
use lptstore.Fat32.Cache.{Holds, IsCached, fat_entry, get_next_cluster-entry}

module _ {M : Medium} {content : ℕ → List ℕ} {Good : M.State → Type 0}
    (holds : Holds M content Good) (f : Fat32) where
  -- The k-th cluster of the chain that begins with `cluster`.
  abbrev pub nth : ℕ → ℕ → ℕ
  nth zero cluster = cluster
  nth (suc k) cluster = nth k (fat_entry content f cluster)

  -- The chain goes on to its k-th cluster, and no cluster before ends on the medium's sector 0.
  abbrev pub Reaches : ℕ → ℕ → Type 0
  Reaches zero cluster = in_chain cluster ≡ true
  Reaches (suc k) cluster =
      (in_chain cluster ≡ true)
      × (u32 (get_lba f cluster + f.sectors_per_cluster - 1) ≢ 0)
      × Reaches k (fat_entry content f cluster)

  pub fat_entry-same :
      {g : Fat32} (cluster : ℕ)
      → SameVolume f g
      → fat_entry content g cluster ≡ fat_entry content f cluster
  unfolding fat_entry
  fat_entry-same cluster same = rw same.reserved

  -- What a round of the loop over a chain without gaps leaves.
  record Rest (fuel cluster last : ℕ) (h : Fat32) (t : M.State) : Type 0 where
    joined : (last ≡ 0) ⊎ (get_lba f cluster ≡ u32 (last + 1))
    volume : Fat32
    medium : M.State
    cached : IsCached content volume
    good : Good medium
    same : SameVolume f volume
    goes_on :
        gap_loop M fuel
          (fat_entry content f cluster)
          (u32 (get_lba f cluster + f.sectors_per_cluster - 1))
          volume
          medium
        ≡ ended (0, h, t)

  get_lba-lt : (cluster : ℕ) → get_lba f cluster < 2 ^ 32
  unfolding get_lba
  get_lba-lt cluster = omega arith

  gap_loop-round :
      (fuel cluster last : ℕ) (g h : Fat32) (s t : M.State)
      → 1 ≤ f.sectors_per_cluster
      → f.reserved_sector_count < 0xf000_0000
      → IsCached content g
      → Good s
      → SameVolume f g
      → in_chain cluster ≡ true
      → gap_loop M (suc fuel) cluster last g s ≡ ended (0, h, t)
      → Rest fuel cluster last h t
  gap_loop-round fuel cluster last g h s t spc near cached good same inside e =
      go (cluster_gap g.sectors_per_cluster (get_lba g cluster) 0 last) refl
    where
      count : g.sectors_per_cluster ≡ suc (f.sectors_per_cluster - 1)
      count = omega (arith, same.clusters)

      go :
          (o : Option ℕ)
          → cluster_gap g.sectors_per_cluster (get_lba g cluster) 0 last ≡ o
          → Rest fuel cluster last h t
      go none gap = absurd (cc (loop_gap M fuel cluster last g s inside gap, e))
      go (some last') gap =
          let small : cluster < 0x0fff_fff0 = ground arith in
          let (g', s', step, cached', moved, good') =
            get_next_cluster-entry holds cluster g s cached good (omega (arith, same.reserved))
              (ground arith) in
          let links =
            cluster_gap-some (f.sectors_per_cluster - 1) (get_lba f cluster) 0 last last'
              (rw (get_lba-same f cluster same, count) at gap) in
          let last_eq : last' ≡ u32 (get_lba f cluster + f.sectors_per_cluster - 1) =
            omega (arith, links.1) in
          record {
            joined = ground (arith, links.0, get_lba-lt cluster);
            volume = g';
            medium = s';
            cached = cached';
            good = good';
            same = record {
              clusters = moved.clusters ∙ same.clusters;
              reserved = moved.reserved ∙ same.reserved;
              fats = moved.fats ∙ same.fats;
            };
            goes_on =
                rw (← last_eq, ← fat_entry-same cluster same)
                  (sym (loop_on M fuel cluster last last' _ g g' s s' inside gap step) ∙ e);
          }

  inside_first : (k cluster : ℕ) → Reaches k cluster → in_chain cluster ≡ true
  inside_first zero cluster r = r
  inside_first (suc k) cluster r = r.0

  gap_loop-chain :
      (k fuel cluster last : ℕ) (g h : Fat32) (s t : M.State)
      → k < fuel
      → 1 ≤ f.sectors_per_cluster
      → f.reserved_sector_count < 0xf000_0000
      → IsCached content g
      → Good s
      → SameVolume f g
      → gap_loop M fuel cluster last g s ≡ ended (0, h, t)
      → Reaches k cluster
      → last ≢ 0
      → get_lba f (nth k cluster) ≡ u32 (last + 1 + k * f.sectors_per_cluster)
  gap_loop-chain k zero cluster last g h s t hk spc near cached good same e r nz =
      absurd (omega arith)
  gap_loop-chain zero (suc fuel) cluster last g h s t hk spc near cached good same e r nz =
      let round = gap_loop-round fuel cluster last g h s t spc near cached good same r e in
      ground (arith, round.joined)
  gap_loop-chain (suc k) (suc fuel) cluster last g h s t hk spc near cached good same e
        (inside, nz', r) nz =
      let round = gap_loop-round fuel cluster last g h s t spc near cached good same inside e in
      let rest =
        gap_loop-chain k fuel (fat_entry content f cluster)
          (u32 (get_lba f cluster + f.sectors_per_cluster - 1)) round.volume h round.medium t
          (omega arith) spc near round.cached round.good round.same round.goes_on r nz' in
      ground (arith, round.joined, rest)

  -- Where file_has_gaps returns 0 for a file, its clusters lie one behind the other: the k-th begins k
  -- clusters behind the first. The chain must reach the k-th cluster within the rounds made, and no
  -- cluster before it end on sector 0, which the function takes for "no sector yet".
  pub file_has_gaps-chain :
      (k fuel cluster : ℕ) (h : Fat32) (s t : M.State)
      → k < fuel
      → 1 ≤ f.sectors_per_cluster
      → f.reserved_sector_count < 0xf000_0000
      → IsCached content f
      → Good s
      → file_has_gaps M fuel cluster f s ≡ ended (0, h, t)
      → Reaches k cluster
      → get_lba f (nth k cluster) ≡ u32 (get_lba f cluster + k * f.sectors_per_cluster)
  unfolding file_has_gaps
  file_has_gaps-chain zero fuel cluster h s t hk spc near cached good e r =
      omega (arith, get_lba-lt cluster)
  file_has_gaps-chain (suc k) zero cluster h s t hk spc near cached good e r = absurd (omega arith)
  file_has_gaps-chain (suc k) (suc fuel) cluster h s t hk spc near cached good e (inside, nz, r) =
      let same : SameVolume f f = record { clusters = refl; reserved = refl; fats = refl } in
      let round = gap_loop-round fuel cluster 0 f h s t spc near cached good same inside e in
      let rest =
        gap_loop-chain k fuel (fat_entry content f cluster)
          (u32 (get_lba f cluster + f.sectors_per_cluster - 1)) round.volume h round.medium t
          (omega arith) spc near round.cached round.good round.same round.goes_on r nz in
      ground (arith, rest)
