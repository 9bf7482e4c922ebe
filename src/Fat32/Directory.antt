-- ===== src/Fat32/Directory.antt =====
-- read_file over the root directory ends where the directory's chain does.
use lptstore.Prelude.{
  ℕ, zero, suc, ◌+◌, ◌≡◌, ◌<◌, ◌≤◌, inl, inr, sym, ap, subst, ◌∙◌, true, false, List, Option, none,
  some, arith, Bool-cases,
}
use lptstore.Fat32.{
  Medium, Fat32, Disks, Walk, ended, u32, in_chain, get_lba, get_next_cluster, process_dir_sector,
}
use lptstore.Fat32.Volume.{read_cluster, read_file}
use lptstore.Fat32.Rounds.{SameVolume, get_lba-same}
use lptstore.Fat32.Places.{cluster_end, table_end}
use lptstore.Fat32.Verdicts.{Within, IsVolume, InChain}
use lptstore.Fat32.Cache.{Holds, IsCached, fat_entry, get_next_cluster-entry}
use lptstore.Fat32.Chains.{nth, fat_entry-same}
use lptstore.Fat32.Listing.{IsListed, Lists, Names, process_dir_sector-Lists}

module _ {M : Medium} {content : ℕ → List ℕ} {Good : M.State → Type 0}
    (holds : Holds M content Good) (f : Fat32) (sized : IsVolume content f) where
  -- What the entries of a cluster's sectors name: `n` sectors are left, the next is `lba`.
  abbrev pub SectorsName : ℕ → ℕ → Type 0
  SectorsName zero lba = Unit
  SectorsName (suc n) lba =
      Names sized.size.clusters 16 (content (u32 lba)) 0 × SectorsName n (lba + 1)

  -- Every entry for a disk or for the configuration in the directory that begins with a cluster names a
  -- cluster of the volume, or none, and that for a disk has a letter from A to P.
  abbrev pub DirectoryNames : ℕ → Type 0
  DirectoryNames c =
      (k : ℕ)
      → InChain holds f sized k c
      → SectorsName f.sectors_per_cluster (get_lba f (nth holds f k c))

  -- What the sectors of a cluster list.
  abbrev Noted : Option (List ℕ × Disks × M.State) → Type 0
  Noted none = ⊥
  Noted (some (buff, d, s)) = IsListed sized.size.clusters 0 f d × Good s

  read_cluster-Noted :
      (n : ℕ) (g : Fat32) (lba i : ℕ) (buff : List ℕ) (d : Disks) (s : M.State)
      → SameVolume f g
      → IsListed sized.size.clusters 0 f d
      → Good s
      → lba + i + n ≤ 0xffff_ffff
      → SectorsName n (lba + i)
      → Noted (read_cluster M n g lba i buff d s)
  unfolding read_cluster
  read_cluster-Noted zero g lba i buff d s same is good low names = (is, good)
  read_cluster-Noted (suc n) g lba i buff d s same is good low names =
      let (r, s', e, good') = holds.reads (u32 (lba + i)) buff s (omega arith) good in
      let sector = content (u32 (lba + i)) in
      let step : read_cluster M (suc n) g lba i buff d s ≡ (elim (process_dir_sector g sector d) [
        | none ↦ none
        | some d' ↦ read_cluster M n g lba (i + 1) sector d' s'
      ]) =
        ap
          (λ (q : ℕ × List ℕ × M.State). elim (process_dir_sector g q.1 d) [
            | none ↦ none
            | some d' ↦ read_cluster M n g lba (i + 1) q.1 d' q.2
          ])
          e in
      subst Noted (sym step) (
        go sector s'
          (λ d' is'.
            read_cluster-Noted n g lba (i + 1) sector d' s' same is' good' (omega arith)
              (subst (SectorsName n) (omega arith) names.1))
          (process_dir_sector g sector d)
          (process_dir_sector-Lists sized.size.clusters 0 f same sector d names.0 is))
    where
      go :
          (sector : List ℕ) (s' : M.State)
          → ((d' : Disks)
              → IsListed sized.size.clusters 0 f d'
              → Noted (read_cluster M n g lba (i + 1) sector d' s'))
          → (o : Option Disks) → Lists sized.size.clusters 0 f o
          → Noted (elim o [ none ↦ none | some d' ↦ read_cluster M n g lba (i + 1) sector d' s' ])
      go sector s' more none h = absurd h
      go sector s' more (some d') is' = more d' is'

  whole_cluster-Noted :
      (g : Fat32) (cluster : ℕ) (buff : List ℕ) (d : Disks) (s : M.State)
      → in_chain cluster ≡ true
      → Within sized.size.clusters cluster
      → SameVolume f g
      → IsListed sized.size.clusters 0 f d
      → Good s
      → SectorsName f.sectors_per_cluster (get_lba f cluster)
      → Noted (read_cluster M g.sectors_per_cluster g (get_lba g cluster) 0 buff d s)
  whole_cluster-Noted g cluster buff d s inside bound same is good names =
      let at = get_lba-same f cluster same in
      let end = cluster_end f sized.size cluster (bound inside) inside in
      let here : get_lba f cluster ≡ get_lba g cluster + 0 = omega (arith, at) in
      read_cluster-Noted g.sectors_per_cluster g (get_lba g cluster) 0 buff d s same is good
        (omega (arith, at, same.clusters, end))
        (subst (SectorsName g.sectors_per_cluster) here
          (subst (λ n. SectorsName n (get_lba f cluster)) (sym same.clusters) names))

  -- The directory is read to its end.
  abbrev pub Scanned : Walk (Option (Fat32 × Disks × M.State)) → Type 0
  Scanned w =
      (g : Fat32) × (d : Disks) × (s : M.State) × (w ≡ ended (some (g, d, s)))
      × IsCached content g
      × SameVolume f g
      × IsListed sized.size.clusters 0 f d
      × Good s

  -- The chain is over.
  leaves :
      (fuel cluster : ℕ) (g : Fat32) (buff : List ℕ) (d : Disks) (s : M.State)
      → in_chain cluster ≡ false
      → IsCached content g
      → SameVolume f g
      → IsListed sized.size.clusters 0 f d
      → Good s
      → Scanned (read_file M (suc fuel) cluster g buff d s)
  unfolding read_file
  leaves fuel cluster g buff d s out cached same is good = (g, d, s, rw out, cached, same, is, good)

  -- A round: the cluster is read, and then the rest of the chain.
  round :
      (fuel cluster : ℕ) (g : Fat32) (buff : List ℕ) (d : Disks) (s : M.State)
      → in_chain cluster ≡ true
      → IsCached content g
      → SameVolume f g
      → IsListed sized.size.clusters 0 f d
      → Good s
      → SectorsName f.sectors_per_cluster (get_lba f cluster)
      → Within sized.size.clusters cluster
      → ((g' : Fat32) (buff' : List ℕ) (d' : Disks) (s' : M.State)
          → IsCached content g'
          → SameVolume f g'
          → IsListed sized.size.clusters 0 f d'
          → Good s'
          → Scanned (read_file M fuel (fat_entry content f cluster) g' buff' d' s'))
      → Scanned (read_file M (suc fuel) cluster g buff d s)
  unfolding read_file
  round fuel cluster g buff d s inside cached same is good names bound later =
      rw (read_file, inside)
        (go (read_cluster M g.sectors_per_cluster g (get_lba g cluster) 0 buff d s)
          (whole_cluster-Noted g cluster buff d s inside bound same is good names))
    where
      go :
          (o : Option (List ℕ × Disks × M.State))
          → Noted o
          → Scanned (elim o [
            | none ↦ ended none
            | some (buff', d', s') ↦
                (let (next, g', s'') = get_next_cluster M cluster g s' in
                  read_file M fuel next g' buff' d' s'')
          ])
      go none h = absurd h
      go (some (buff', d', s')) (is', good') =
          let (g', s'', step, cached', kept, good'') =
            get_next_cluster-entry holds cluster g s' cached good'
              (omega (arith, same.reserved, table_end f sized.size cluster (bound inside)))
              (ground arith) in
          let here : SameVolume f g' = record {
            clusters = kept.clusters ∙ same.clusters;
            reserved = kept.reserved ∙ same.reserved;
            fats = kept.fats ∙ same.fats;
          } in
          rw (step, fat_entry-same holds f cluster same)
            (later g' buff' d' s'' cached' here is' good'')

  pub read_file-Scanned :
      (m fuel cluster : ℕ) (g : Fat32) (buff : List ℕ) (d : Disks) (s : M.State)
      → in_chain (nth holds f m cluster) ≡ false
      → m < fuel
      → IsCached content g
      → SameVolume f g
      → IsListed sized.size.clusters 0 f d
      → Good s
      → DirectoryNames cluster
      → Within sized.size.clusters cluster
      → Scanned (read_file M fuel cluster g buff d s)
  read_file-Scanned m zero cluster g buff d s over enough cached same is good names bound =
      absurd (omega arith)
  read_file-Scanned zero (suc fuel) cluster g buff d s over enough cached same is good names bound =
      leaves fuel cluster g buff d s over cached same is good
  read_file-Scanned (suc m) (suc fuel) cluster g buff d s over enough cached same is good names
        bound =
      elim (Bool-cases (in_chain cluster)) [
        | inr out ↦ leaves fuel cluster g buff d s out cached same is good
        | inl inside ↦
            round fuel cluster g buff d s inside cached same is good (names 0 inside) bound
              λ g' buff' d' s' cached' same' is' good'.
                read_file-Scanned m fuel (fat_entry content f cluster) g' buff' d' s' over
                  (omega arith) cached' same' is' good'
                  (λ k reached. names (suc k) (inside, reached))
                  (sized.stays cluster (bound inside) inside)
      ]
