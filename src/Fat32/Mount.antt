-- ===== src/Fat32/Mount.antt =====
-- init_disk as a whole: a disk that stays active is a file in one piece.
use native.Mathlib.Nat.{mul-add}
use lptstore.Prelude.{
  ℕ, zero, suc, ◌+◌, ◌*◌, ◌≡◌, ◌<◌, ◌⊎◌, inl, inr, refl, sym, ap, subst, ◌∙◌, true, false, List,
  some, arith, get_or, length,
}
use lptstore.Fat32.{Medium, Fat32, Disks, ended, le16, le32, nr_disks, in_chain, get_lba}
use lptstore.Fat32.Directory.{DirectoryNames, read_file-Scanned}
use lptstore.Fat32.Volume.{read_fs_id, read_file, init_disk}
use lptstore.Fat32.Rounds.{SameVolume}
use lptstore.Fat32.Cache.{Holds, IsCached, fat_entry}
use lptstore.Fat32.Chains.{nth}
use lptstore.Fat32.Places.{get_lba-place}
use lptstore.Fat32.Verdicts.{Within, IsVolume, InChain, InChain-first, chain_bounds}
use lptstore.Fat32.Drives.{active_bits-lt, active_bits-zero, drives, drives-eq}
use lptstore.Fat32.Listing.{IsListed}
use lptstore.Fat32.Checks.{InOnePiece, Sorted, start, counted, check_disks-AllBelow}
use lptstore.Fat32.Config.{check_config-arrays}

module _ {M : Medium} {content : ℕ → List ℕ} {Good : M.State → Type 0}
    (holds : Holds M content Good) (f : Fat32) (sized : IsVolume content f) where
  pub InChain-last : (k c : ℕ) → InChain holds f sized k c → in_chain (nth holds f k c) ≡ true
  InChain-last zero c is = is
  InChain-last (suc k) c (is, rest) = InChain-last k (fat_entry content f c) rest

  pub InChain-Within :
      (k c : ℕ)
      → Within sized.size.clusters c
      → InChain holds f sized k c
      → nth holds f k c < sized.size.clusters
  InChain-Within zero c bound is = bound is
  InChain-Within (suc k) c bound (is, rest) =
      InChain-Within k (fat_entry content f c) (sized.stays c (bound is) is) rest

  -- In a file in one piece the k-th cluster lies k clusters behind the first.
  pub InOnePiece-place :
      (k c : ℕ)
      → Within sized.size.clusters c
      → InOnePiece holds f sized c
      → InChain holds f sized k c
      → get_lba f (nth holds f k c) ≡ get_lba f c + f.sectors_per_cluster * k
  InOnePiece-place k c bound joined reached =
      let (low, high) = chain_bounds holds f sized c (InChain-first holds f sized k c reached) in
      let (low', high') = chain_bounds holds f sized (nth holds f k c) (InChain-last k c reached) in
      let bound' = InChain-Within k c bound reached in
      let first =
        get_lba-place f sized.size c low (bound (InChain-first holds f sized k c reached)) in
      let last =
        get_lba-place f sized.size (k + c) (omega arith)
          (omega (arith, joined k reached, bound')) in
      ap (get_lba f) (joined k reached)
      ∙ omega (arith, first, last, mul-add f.sectors_per_cluster k c)

-- The volume that the boot sector describes; `f` is what the stack holds.
abbrev pub volume_of : (ℕ → List ℕ) → Fat32 → Fat32
volume_of content f = record f {
  sectors_per_cluster = get_or (content 0) 0x0d 0;
  reserved_sector_count = le16 (content 0) 0x0e;
  sectors_per_fat = le32 (content 0) 0x24;
  root_directory_first_cluster = le32 (content 0) 0x2c;
}

module _ {M : Medium} {content : ℕ → List ℕ} {Good : M.State → Type 0}
    (holds : Holds M content Good) (f : Fat32)
    (sized : IsVolume content (volume_of content f)) where
  read_fs_id-volume :
      (stack : List ℕ) (s : M.State)
      → Good s
      → get_or (content 0) 0x1fe 0 ≡ 0x55
      → get_or (content 0) 0x1ff 0 ≡ 0xaa
      → (s' : M.State) × (read_fs_id M stack f s ≡ (0, volume_of content f, s')) × Good s'
  unfolding read_fs_id
  read_fs_id-volume stack s good low high =
      let (r, s', e, good') = holds.reads 0 stack s (omega arith) good in
      (s', rw (read_fs_id, e, low, high), good')

  -- Each disk is not active, or its file begins in the volume and the k-th cluster of its file is `k` clusters behind its first sector.
  abbrev pub IsMounted : Disks → Type 0
  IsMounted d =
      (i : ℕ)
      → i < nr_disks
      → (get_or d.disk_lba i 0 ≡ 0)
        ⊎ (Within sized.size.clusters (get_or d.disk_cluster i 0)
            × ((k : ℕ)
                → InChain holds (volume_of content f) sized k (get_or d.disk_cluster i 0)
                → get_lba (volume_of content f)
                    (nth holds (volume_of content f) k (get_or d.disk_cluster i 0))
                  ≡ get_or d.disk_lba i 0 + (volume_of content f).sectors_per_cluster * k))

  -- Behind the boot sector read_file lists disks, and of these the ones whose files have gaps are dropped
  -- and no others.
  abbrev pub KeepsListed : ℕ → List ℕ → Disks → M.State → Disks → Type 0
  KeepsListed fuel stack d s d' =
      (s' : M.State) × (read_fs_id M stack f s ≡ (0, volume_of content f, s'))
      × (g : Fat32) × (listed : Disks) × (t : M.State) × (read_file M fuel (le32 (content 0) 0x2c)
            (volume_of content f) stack (record d { disk_bitmap = 0 }) s'
          ≡ ended (some (g, listed, t)))
      × ((i : ℕ)
          → i < nr_disks
          → Sorted holds (volume_of content f) sized (start i listed) (start i d'))

  settled :
      (i : ℕ) (listed d : Disks)
      → Sorted holds (volume_of content f) sized (start i listed) (start i d)
      → (get_or d.disk_lba i 0 ≡ 0)
        ⊎ InOnePiece holds (volume_of content f) sized (get_or d.disk_cluster i 0)
  settled i listed d (inl (same, inl off)) = inl (ap (λ (p : ℕ × ℕ). p.0) same ∙ off)
  settled i listed d (inl (same, inr joined)) = inr (
      subst (InOnePiece holds (volume_of content f) sized) (sym (ap (λ (p : ℕ × ℕ). p.1) same))
        joined)
  settled i listed d (inr (off, active, gap)) = inl off

  verified_place :
      (bits : ℕ) (d : Disks)
      → IsListed sized.size.clusters bits (volume_of content f) d
      → ((i : ℕ)
          → i < nr_disks
          → (get_or d.disk_lba i 0 ≡ 0)
            ⊎ InOnePiece holds (volume_of content f) sized (get_or d.disk_cluster i 0))
      → IsMounted d
  verified_place bits d is all i within = elim (all i within) [
    | inl off ↦ inl off
    | inr joined ↦ elim (is.listed i) [
      | inl off ↦ inl off
      | inr there ↦ inr (
        is.below i,
        λ k reached. rw there (
            InOnePiece-place holds (volume_of content f) sized k (get_or d.disk_cluster i 0)
              (is.below i) joined reached),
      )
    ]
  ]

  -- On a medium that does not change and has a boot sector, whose root directory's chain has an end,
  -- and where each entry for a disk has a letter from A to P, init_disk ends with result 0; each disk is
  -- then not active or in the place that disk_lba has for it lie its file's clusters, one behind the
  -- other; disk_bitmap has the bits of the active disks and of the configuration. Of the disks that
  -- read_file has listed behind the boot sector a disk stays as it is where its file is in one piece,
  -- and it is dropped only where its file has a gap. (There is fuel for the
  -- directory and for file_has_gaps; the clusters that the boot sector, the table and the entries of
  -- the directory for disks and for the configuration name lie below sector 2 ^ 32, and the first
  -- behind the tables; the kept sector of the table is sound or none; and the arrays are sound before,
  -- as they are at power on.)
  pub init_disk-mounts :
      (m fuel : ℕ) (stack : List ℕ) (d : Disks) (s : M.State)
      → get_or (content 0) 0x1fe 0 ≡ 0x55
      → get_or (content 0) 0x1ff 0 ≡ 0xaa
      → in_chain (nth holds (volume_of content f) m (le32 (content 0) 0x2c)) ≡ false
      → m < fuel
      → 0x0fff_fff0 < fuel
      → IsCached content (volume_of content f)
      → IsListed sized.size.clusters d.disk_bitmap (volume_of content f) d
      → Within sized.size.clusters (le32 (content 0) 0x2c)
      → DirectoryNames holds (volume_of content f) sized (le32 (content 0) 0x2c)
      → Good s
      → (d' : Disks) × (t : M.State) × (init_disk M fuel stack f d s ≡ ended (some (0, d', t)))
        × (length d'.disk_lba ≡ nr_disks)
        × IsMounted d'
        × (d'.disk_bitmap ≡ drives d')
        × KeepsListed fuel stack d s d'
        × Good t
  unfolding init_disk
  init_disk-mounts m fuel stack d s low high over enough plenty cached is root names good =
      let v = volume_of content f in
      let same : SameVolume v v = record { clusters = refl; reserved = refl; fats = refl } in
      let (s', boot, good') = read_fs_id-volume stack s good low high in
      let clear : IsListed sized.size.clusters 0 v (record d { disk_bitmap = 0 }) = record {
        lbas = is.lbas;
        starts = is.starts;
        listed = is.listed;
        below = is.below;
        config_below = is.config_below;
        bitmap = refl;
      } in
      let (g, d', t, scan, cached', same', is', good'') =
        read_file-Scanned holds v sized m fuel v.root_directory_first_cluster v stack
          (record d { disk_bitmap = 0 }) s' over enough cached same clear good' names root in
      let (h, d'', t', disks, cached'', same'', is'', good3, all) =
        check_disks-AllBelow holds v sized fuel 16 0 g d' d' t plenty (omega arith) cached' same'
          (counted holds v sized _ _ d' (sym (active_bits-zero d'.disk_lba)) is') good''
          (λ j below. absurd (omega arith)) (λ j above. refl) in
      let (e, t'', config, lbas, clusters, bits, good4) =
        check_config-arrays holds v sized fuel h d'' t' is''.config_below
          (omega (arith, is''.bitmap, active_bits-lt 16 d''.disk_lba)) plenty cached'' same''
          good3 in
      (
        e,
        t'',
        rw (init_disk, boot, scan, disks, config),
        ap length lbas ∙ is''.lbas,
        rw (lbas, clusters)
            (verified_place _ d'' is''
              λ i within. settled i d' d'' (all i (omega (arith, within)))),
        drives-eq e d'' bits is''.bitmap lbas,
        (s', boot, g, d', t, scan, λ i within. rw (lbas, clusters) (all i (omega (arith, within)))),
        good4,
      )
