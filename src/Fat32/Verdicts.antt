-- ===== src/Fat32/Verdicts.antt =====
-- What the result of file_has_gaps says of a chain.
use native.Mathlib.Nat.{mul-add}
use lptstore.Prelude.{
  ℕ, zero, suc, ◌+◌, ◌*◌, ◌≤◌, ◌<◌, ◌≡◌, ◌≢◌, ◌⊎◌, inl, inr, ap, true, List, none, arith,
}
use lptstore.Fat32.{Medium, Fat32, ended, u32, in_chain, get_lba, cluster_gap, gap_loop}
use lptstore.Fat32.Rounds.{SameVolume}
use lptstore.Fat32.Cache.{Holds, IsCached, fat_entry}
use lptstore.Fat32.Chains.{nth}
use lptstore.Fat32.Places.{IsSized, base, get_lba-place}

-- A cluster is in no chain, or its number is one of the volume's.
abbrev pub Within : ℕ → ℕ → Type 0
Within clusters c = in_chain c ≡ true → c < clusters

-- The entries of the volume's clusters name clusters of the volume.
pub record IsVolume (content : ℕ → List ℕ) (f : Fat32) : Type 0 where
  pub size : IsSized f
  pub stays :
      (c : ℕ) → c < size.clusters → in_chain c ≡ true → Within size.clusters (fat_entry content f c)

-- A gap is found at the first sector of a cluster or not at all.
pub cluster_gap-none :
    (n lba i last : ℕ)
    → cluster_gap n lba i last ≡ none
    → (last ≢ 0) × (u32 (last + 1) ≢ u32 (lba + i))
unfolding cluster_gap
cluster_gap-none zero lba i last h = ground arith
cluster_gap-none (suc n) lba i last h =
    ground (arith, cluster_gap-none n lba (i + 1) (u32 (lba + i)))

module _ {M : Medium} {content : ℕ → List ℕ} {Good : M.State → Type 0}
    (holds : Holds M content Good) (f : Fat32) (sized : IsVolume content f) where
  -- The chain goes on to its k-th cluster.
  abbrev pub InChain : ℕ → ℕ → Type 0
  InChain zero c = in_chain c ≡ true
  InChain (suc k) c = (in_chain c ≡ true) × InChain k (fat_entry content f c)

  -- What the result says of the chain from `c` on, whose first cluster should have the number `n`.
  abbrev pub Verdict : ℕ → ℕ → ℕ → Type 0
  Verdict r c n =
      ((r ≡ 0) × ((k : ℕ) → InChain k c → nth holds f k c ≡ k + n))
      ⊎ ((r ≡ 1) × (k : ℕ) × InChain k c × (nth holds f k c ≢ k + n))

  abbrev pub Decides : ℕ → ℕ → ℕ → ℕ → Fat32 → M.State → Type 0
  Decides fuel c n last g s =
      (r : ℕ) × (h : Fat32) × (t : M.State) × (gap_loop M fuel c last g s ≡ ended (r, h, t))
      × Verdict r c n
      × IsCached content h
      × SameVolume f h
      × Good t

  pub InChain-first : (k c : ℕ) → InChain k c → in_chain c ≡ true
  InChain-first zero c is = is
  InChain-first (suc k) c (is, rest) = is

  pub chain_bounds : (c : ℕ) → in_chain c ≡ true → (1 ≤ c) × (c < 0x0fff_fff0)
  chain_bounds c inside = ground arith

  -- The verdict on the rest of the chain is one on the chain.
  pub chain-Verdict :
      (r c : ℕ) → in_chain c ≡ true → Verdict r (fat_entry content f c) (suc c) → Verdict r c c
  chain-Verdict r c inside (inl (good, all)) = inl (good, λ k is. joined k is)
    where
      joined : (k : ℕ) → InChain k c → nth holds f k c ≡ k + c
      joined zero is = omega arith
      joined (suc k) (is, rest) = omega (arith, all k rest)
  chain-Verdict r c inside (inr (bad, k, is, gap)) =
      inr (bad, suc k, (inside, is), omega (arith, gap))

  -- The cluster behind a gap does not have the next number.
  pub gap_differs :
      (p c last n : ℕ)
      → 1 ≤ p
      → p < sized.size.clusters
      → c < sized.size.clusters
      → in_chain c ≡ true
      → last + 1 + f.sectors_per_cluster ≡ base f sized.size + f.sectors_per_cluster * p
      → cluster_gap n (get_lba f c) 0 last ≡ none
      → c ≢ suc p
  gap_differs p c last n pos small bound inside follows gap e =
      let (_, differs) = cluster_gap-none n (get_lba f c) 0 last gap in
      let at = get_lba-place f sized.size (suc p) (omega arith) (omega (arith, e)) in
      let same : get_lba f c ≡ get_lba f (suc p) = ap (get_lba f) e in
      let eq : last + 1 ≡ get_lba f c + 0 =
        omega (arith, same, at, follows, sized.size.behind, mul-add f.sectors_per_cluster p 1) in
      differs (ap u32 eq)
