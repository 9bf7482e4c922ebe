-- ===== src/Fat32/Ends.antt =====
-- file_has_gaps ends on every table: where it goes on, the next cluster is the next number.
use lptstore.Prelude.{
  ℕ, zero, suc, ◌+◌, ◌*◌, ◌≤◌, ◌<◌, ◌≡◌, inl, inr, refl, ap, ◌∙◌, true, false, Option, none, some,
  arith, Bool-cases,
}
use lptstore.Fat32.{
  Medium, Fat32, ended, in_chain, get_lba, fat_miss, cluster_gap, get_next_cluster, gap_loop,
  file_has_gaps,
}
use lptstore.Fat32.Rounds.{SameVolume, loop_gap, loop_on, get_lba-same}
use lptstore.Fat32.Places.{IsSized, base, round, last_place}

module _ (f : Fat32) (sized : IsSized f) where
  module _ (whole : sized.clusters ≡ 0x0fff_fff0) (M : Medium) where
    abbrev Ends : ℕ → ℕ → ℕ → Fat32 → M.State → Type 0
    Ends fuel c last g s = (r : ℕ × Fat32 × M.State) × (gap_loop M fuel c last g s ≡ ended r)

    get_next_cluster-SameVolume :
        (c : ℕ) (g : Fat32) (s : M.State)
        → SameVolume f g
        → SameVolume f (get_next_cluster M c g s).1
    unfolding get_next_cluster
    get_next_cluster-SameVolume c g s same = elim (Bool-cases (fat_miss g c)) [
      | inl e ↦
          rw e (record { clusters = same.clusters; reserved = same.reserved; fats = same.fats })
      | inr e ↦ rw e same
    ]

    -- A loop that stands at a cluster outside the chain, or at a gap, has ended.
    loop_step :
        (fuel c last : ℕ) (g : Fat32) (s : M.State)
        → SameVolume f g
        → ((last' : ℕ)
            → in_chain c ≡ true
            → cluster_gap f.sectors_per_cluster (get_lba f c) 0 last ≡ some last'
            → Ends fuel
                (get_next_cluster M c g s).0
                last'
                (get_next_cluster M c g s).1
                (get_next_cluster M c g s).2)
        → Ends (suc fuel) c last g s
    loop_step fuel c last g s same later = elim (Bool-cases (in_chain c)) [
      | inl inside ↦ go inside (cluster_gap f.sectors_per_cluster (get_lba f c) 0 last) refl
      | inr out ↦ ((0, g, s), leaves out)
    ]
      where
        moved :
            cluster_gap g.sectors_per_cluster (get_lba g c) 0 last
            ≡ cluster_gap f.sectors_per_cluster (get_lba f c) 0 last
        moved =
            ap (λ n. cluster_gap n (get_lba g c) 0 last) same.clusters
            ∙ ap (λ n. cluster_gap f.sectors_per_cluster n 0 last) (get_lba-same f c same)

        leaves : in_chain c ≡ false → gap_loop M (suc fuel) c last g s ≡ ended (0, g, s)
        leaves out = unfold gap_loop in rw out

        go :
            in_chain c ≡ true
            → (o : Option ℕ) → cluster_gap f.sectors_per_cluster (get_lba f c) 0 last ≡ o
            → Ends (suc fuel) c last g s
        go inside none gap = ((1, g, s), loop_gap M fuel c last g s inside (moved ∙ gap))
        go inside (some last') gap =
            let (r, e) = later last' inside gap in
            (r, loop_on M fuel c last last' _ g _ s _ inside (moved ∙ gap) refl ∙ e)

    loop-Ends :
        (fuel p c last : ℕ) (g : Fat32) (s : M.State)
        → 1 ≤ p
        → p < 0x0fff_fff0
        → 0x0fff_fff0 < fuel + p
        → last + 1 + f.sectors_per_cluster ≡ base f sized + f.sectors_per_cluster * p
        → SameVolume f g
        → Ends fuel c last g s
    loop-Ends zero p c last g s pos small enough follows same = absurd (omega arith)
    loop-Ends (suc fuel) p c last g s pos small enough follows same =
        loop_step fuel c last g s same λ last' inside gap.
          let (up, follows') =
            round f sized p c last last' pos (omega (arith, whole)) (bound inside) inside follows
              gap in
          let (low, high) = in_bounds inside in
          loop-Ends fuel c _ last' _ _ low high (omega (arith, up)) follows'
            (get_next_cluster-SameVolume c g s same)
      where
        in_bounds : in_chain c ≡ true → (1 ≤ c) × (c < 0x0fff_fff0)
        in_bounds inside = ground arith

        bound : in_chain c ≡ true → c < sized.clusters
        bound inside = ground (arith, whole)

    -- On every volume that is small enough for each of 0x0ffffff0 clusters to lie below sector 2 ^ 32
    -- (so with at most 15 sectors in a cluster), whatever the medium and its table hold, cyclic chains
    -- included, and for every cluster: with 0x0ffffff1 rounds of fuel file_has_gaps ends.
    pub file_has_gaps-ends :
        (fuel cluster : ℕ) (s : M.State)
        → 0x0fff_fff0 < fuel
        → (r : ℕ × Fat32 × M.State) × (file_has_gaps M fuel cluster f s ≡ ended r)
    unfolding file_has_gaps
    file_has_gaps-ends zero cluster s enough = absurd (omega arith)
    file_has_gaps-ends (suc fuel) cluster s enough =
        loop_step fuel cluster 0 f s same λ last' inside gap.
          let (low, high) = in_bounds inside in
          loop-Ends fuel cluster _ last' _ _ low high (omega arith)
            (last_place f sized cluster 0 last' (omega (arith, whole, high)) inside gap)
            (get_next_cluster-SameVolume cluster f s same)
      where
        same : SameVolume f f
        same = record { clusters = refl; reserved = refl; fats = refl }

        in_bounds : in_chain cluster ≡ true → (1 ≤ cluster) × (cluster < 0x0fff_fff0)
        in_bounds inside = ground arith
