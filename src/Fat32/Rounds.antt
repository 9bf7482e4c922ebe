-- ===== src/Fat32/Rounds.antt =====
-- One round of the loop of file_has_gaps.
use lptstore.Prelude.{ℕ, zero, suc, ◌+◌, ◌≡◌, ◌⊎◌, true, none, some, arith}
use lptstore.Fat32.{
  Medium, Fat32, ended, u32, in_chain, get_lba, cluster_gap, get_next_cluster, gap_loop,
}

-- The same medium, apart from the sector that is kept.
pub record SameVolume (f g : Fat32) : Type 0 where
  pub clusters : g.sectors_per_cluster ≡ f.sectors_per_cluster
  pub reserved : g.reserved_sector_count ≡ f.reserved_sector_count
  pub fats : g.sectors_per_fat ≡ f.sectors_per_fat

pub get_lba-same :
    (f : Fat32) {g : Fat32} (cluster : ℕ) → SameVolume f g → get_lba g cluster ≡ get_lba f cluster
unfolding get_lba
get_lba-same f cluster same = rw (same.clusters, same.reserved, same.fats)

-- The sectors of one cluster follow one another, so only the first can leave a gap.
pub cluster_gap-some :
    (n lba i last last' : ℕ)
    → cluster_gap (suc n) lba i last ≡ some last'
    → ((last ≡ 0) ⊎ (u32 (last + 1) ≡ u32 (lba + i))) × (last' ≡ u32 (lba + i + n))
unfolding cluster_gap
cluster_gap-some zero lba i last last' h = ground arith
cluster_gap-some (suc n) lba i last last' h =
    ground (arith, cluster_gap-some n lba (i + 1) (u32 (lba + i)) last')

module _ (M : Medium) where
  pub loop_gap :
      (fuel cluster last : ℕ) (g : Fat32) (s : M.State)
      → in_chain cluster ≡ true
      → cluster_gap g.sectors_per_cluster (get_lba g cluster) 0 last ≡ none
      → gap_loop M (suc fuel) cluster last g s ≡ ended (1, g, s)
  unfolding gap_loop
  loop_gap fuel cluster last g s inside gap = rw (inside, gap, gap_loop)

  pub loop_on :
      (fuel cluster last last' next : ℕ) (g g' : Fat32) (s s' : M.State)
      → in_chain cluster ≡ true
      → cluster_gap g.sectors_per_cluster (get_lba g cluster) 0 last ≡ some last'
      → get_next_cluster M cluster g s ≡ (next, g', s')
      → gap_loop M (suc fuel) cluster last g s ≡ gap_loop M fuel next last' g' s'
  unfolding gap_loop
  loop_on fuel cluster last last' next g g' s s' inside gap step =
      rw (inside, gap, gap_loop) (rw step)
