-- ===== src/Fat32/Decides.antt =====
-- file_has_gaps decides whether the clusters of a file have consecutive numbers.
use native.Mathlib.Nat.{zero-add}
use lptstore.Prelude.{
  ℕ, zero, suc, ◌+◌, ◌*◌, ◌≤◌, ◌<◌, ◌≡◌, ◌≢◌, ◌⊎◌, inl, inr, refl, ap, subst, ◌∙◌, true, false,
  List, Option, none, some, arith, Bool-cases,
}
use lptstore.Fat32.{Medium, Fat32, ended, in_chain, get_lba, cluster_gap, gap_loop, file_has_gaps}
use lptstore.Fat32.Rounds.{SameVolume, get_lba-same, loop_gap, loop_on}
use lptstore.Fat32.Cache.{Holds, IsCached, fat_entry, get_next_cluster-entry}
use lptstore.Fat32.Chains.{nth, fat_entry-same}
use lptstore.Fat32.Places.{base, round, last_place, table_end}
use lptstore.Fat32.Verdicts.{
  Within, IsVolume, InChain, Verdict, Decides, InChain-first, chain_bounds, chain-Verdict,
  gap_differs, cluster_gap-none,
}

module _ {M : Medium} {content : ℕ → List ℕ} {Good : M.State → Type 0}
    (holds : Holds M content Good) (f : Fat32) (sized : IsVolume content f) where
  -- One round: outside the chain, at a gap, or on to the next cluster.
  decide_round :
      (fuel c last n : ℕ) (g : Fat32) (s : M.State)
      → Within sized.size.clusters c
      → IsCached content g
      → SameVolume f g
      → Good s
      → (in_chain c ≡ true → cluster_gap f.sectors_per_cluster (get_lba f c) 0 last ≡ none → c ≢ n)
      → ((last' : ℕ) (g' : Fat32) (s' : M.State)
          → in_chain c ≡ true
          → cluster_gap f.sectors_per_cluster (get_lba f c) 0 last ≡ some last'
          → IsCached content g'
          → SameVolume f g'
          → Good s'
          → (c ≡ n) × Decides holds f sized fuel (fat_entry content f c) (suc c) last' g' s')
      → Decides holds f sized (suc fuel) c n last g s
  decide_round fuel c last n g s bound cached same good stop later =
      elim (Bool-cases (in_chain c)) [
        | inl inside ↦ go inside (cluster_gap f.sectors_per_cluster (get_lba f c) 0 last) refl
        | inr out ↦ (
          0,
          g,
          s,
          leaves out,
          inl (refl, λ k is. absurd (outside out (InChain-first holds f sized k c is))),
          cached,
          same,
          good,
        )
      ]
    where
      first : c ≢ n → c ≢ 0 + n
      first differs e = differs (e ∙ zero-add n)

      outside : in_chain c ≡ false → in_chain c ≡ true → ⊥
      outside out is = cc

      moved :
          cluster_gap g.sectors_per_cluster (get_lba g c) 0 last
          ≡ cluster_gap f.sectors_per_cluster (get_lba f c) 0 last
      moved =
          ap (λ n. cluster_gap n (get_lba g c) 0 last) same.clusters
          ∙ ap (λ n. cluster_gap f.sectors_per_cluster n 0 last) (get_lba-same f c same)

      leaves : in_chain c ≡ false → gap_loop M (suc fuel) c last g s ≡ ended (0, g, s)
      leaves out = unfold gap_loop in rw out

      go :
          in_chain c ≡ true
          → (o : Option ℕ) → cluster_gap f.sectors_per_cluster (get_lba f c) 0 last ≡ o
          → Decides holds f sized (suc fuel) c n last g s
      go inside none gap = (
        1,
        g,
        s,
        loop_gap M fuel c last g s inside (moved ∙ gap),
        inr (refl, 0, inside, first (stop inside gap)),
        cached,
        same,
        good,
      )
      go inside (some last') gap =
          let (low, high) = chain_bounds holds f sized c inside in
          let (g', s', step, cached', kept, good') =
            get_next_cluster-entry holds c g s cached good
              (omega (arith, same.reserved, table_end f sized.size c (bound inside))) high in
          let here : SameVolume f g' = record {
            clusters = kept.clusters ∙ same.clusters;
            reserved = kept.reserved ∙ same.reserved;
            fats = kept.fats ∙ same.fats;
          } in
          let (is, decided) = later last' g' s' inside gap cached' here good' in
          let (r, h, t, e, verdict, cached'', same'', good'') = decided in
          (
            r,
            h,
            t,
            loop_on M fuel c last last' (fat_entry content g c) g g' s s' inside (moved ∙ gap) step
                ∙ ap (λ next. gap_loop M fuel next last' g' s') (fat_entry-same holds f c same)
                ∙ e,
            subst (Verdict holds f sized r c) is (chain-Verdict holds f sized r c inside verdict),
            cached'',
            same'',
            good'',
          )

  decide_loop :
      (fuel p c last : ℕ) (g : Fat32) (s : M.State)
      → Within sized.size.clusters c
      → 1 ≤ p
      → p < sized.size.clusters
      → 0x0fff_fff0 < fuel + p
      → last + 1 + f.sectors_per_cluster ≡ base f sized.size + f.sectors_per_cluster * p
      → IsCached content g
      → SameVolume f g
      → Good s
      → Decides holds f sized fuel c (suc p) last g s
  decide_loop zero p c last g s bound pos small enough follows cached same good =
      absurd (omega (arith, sized.size.few))
  decide_loop (suc fuel) p c last g s bound pos small enough follows cached same good =
      decide_round fuel c last (suc p) g s bound cached same good
        (λ inside gap.
          gap_differs holds f sized p c last f.sectors_per_cluster pos small (bound inside) inside
            follows gap)
        λ last' g' s' inside gap cached' same' good'.
          let (up, follows') =
            round f sized.size p c last last' pos small (bound inside) inside follows gap in
          let (low, high) = chain_bounds holds f sized c inside in
          (
            up,
            decide_loop fuel c (fat_entry content f c) last' g' s'
                (sized.stays c (bound inside) inside) low (bound inside) (omega (arith, up))
                follows' cached' same' good',
          )

  -- file_has_gaps after other chains of the same volume were read.
  pub gap_loop-Decides :
      (fuel cluster : ℕ) (g : Fat32) (s : M.State)
      → Within sized.size.clusters cluster
      → 0x0fff_fff0 < fuel
      → IsCached content g
      → SameVolume f g
      → Good s
      → Decides holds f sized fuel cluster cluster 0 g s
  gap_loop-Decides zero cluster g s bound enough cached same good = absurd (omega arith)
  gap_loop-Decides (suc fuel) cluster g s bound enough cached same good =
      decide_round fuel cluster 0 cluster g s bound cached same good
        (λ inside gap. absurd ((cluster_gap-none _ _ 0 0 gap).0 refl))
        λ last' g' s' inside gap cached' same' good'.
          let (low, high) = chain_bounds holds f sized cluster inside in
          (
            refl,
            decide_loop fuel cluster (fat_entry content f cluster) last' g' s'
                (sized.stays cluster (bound inside) inside) low (bound inside) (omega arith)
                (last_place f sized.size cluster 0 last' (bound inside) inside gap) cached' same'
                good',
          )

  -- With 0x0ffffff1 rounds of fuel, and the kept sector of the table sound or none, file_has_gaps ends
  -- on every medium that does not change. It returns 0, and then each cluster of the file's chain has
  -- the number of the first plus its place, or 1, and then one of them has not. (The table
  -- names clusters that lie below sector 2 ^ 32, and the first cluster lies behind the tables.)
  pub file_has_gaps-decides :
      (fuel cluster : ℕ) (s : M.State)
      → Within sized.size.clusters cluster
      → 0x0fff_fff0 < fuel
      → IsCached content f
      → Good s
      → (r : ℕ) × (h : Fat32) × (t : M.State) × (file_has_gaps M fuel cluster f s ≡ ended (r, h, t))
        × (((r ≡ 0)
              × ((k : ℕ) → InChain holds f sized k cluster → nth holds f k cluster ≡ k + cluster))
            ⊎ ((r ≡ 1)
                × (k : ℕ) × InChain holds f sized k cluster
                × (nth holds f k cluster ≢ k + cluster)))
  unfolding file_has_gaps
  file_has_gaps-decides fuel cluster s bound enough cached good =
      let decided =
        gap_loop-Decides fuel cluster f s bound enough cached
          (record { clusters = refl; reserved = refl; fats = refl }) good in
      let (r, h, t, e, verdict, cached', same, good') = decided in (r, h, t, e, verdict)
