-- ===== src/Fat32/Cache.antt =====
-- get_next_cluster and the sector of the table that it keeps.
use lptstore.Prelude.{
  ℕ, ◌+◌, ◌-◌, ◌*◌, ◌/◌, ◌%◌, ◌^◌, ◌<◌, ◌≡◌, ◌⊎◌, inl, inr, refl, ap, ◌∙◌, false, List, arith,
  Bool-cases,
}
use lptstore.Fat32.Rounds.{SameVolume}
use lptstore.Fat32.{Medium, Fat32, le32, fat_miss, get_next_cluster}

-- A medium whose sectors do not change while it is read, and that stays in the states in which it can
-- be. (4294967295, which is -1 as an `int`, is not asked for.)
pub record Holds (M : Medium) (content : ℕ → List ℕ) (Good : M.State → Type 0) : Type 0 where
  pub reads :
      (lba : ℕ) (buff : List ℕ) (s : M.State)
      → lba < 0xffff_ffff
      → Good s
      → (r : ℕ) × (s' : M.State) × (M.read_sector lba buff s ≡ (r, content lba, s')) × Good s'

-- The sector kept of the file allocation table is the one that its offset names.
abbrev pub IsCached : (ℕ → List ℕ) → Fat32 → Type 0
IsCached content f =
    (f.fat_offset ≡ 0xffff_ffff)
    ⊎ ((f.fat_offset % 128 ≡ 0)
        × (f.fat_offset < 2 ^ 32)
        × (f.fat_rec ≡ content (f.fat_offset / 128 + f.reserved_sector_count)))

-- The entry of a cluster in the file allocation table.
unfoldable pub fat_entry : (ℕ → List ℕ) → Fat32 → ℕ → ℕ
fat_entry content f cluster =
    le32 (content (cluster / 128 + f.reserved_sector_count)) (4 * (cluster % 128))

cached_sector :
    (content : ℕ → List ℕ) (f : Fat32) (cluster : ℕ)
    → IsCached content f
    → cluster < 0x0fff_fff0
    → fat_miss f cluster ≡ false
    → f.fat_rec ≡ content (cluster / 128 + f.reserved_sector_count)
unfolding fat_miss
cached_sector content f cluster (inl empty) small hit = ground arith
cached_sector content f cluster (inr (aligned, word, kept)) small hit =
    let same : f.fat_offset / 128 ≡ cluster / 128 = ground arith in
    kept ∙ ap (λ n. content (n + f.reserved_sector_count)) same

module _ {M : Medium} {content : ℕ → List ℕ} {Good : M.State → Type 0}
    (holds : Holds M content Good) where
  -- With its cache sound or empty get_next_cluster returns the entry of the cluster in the table on
  -- the medium, and leaves the cache sound.
  pub get_next_cluster-entry :
      (cluster : ℕ) (f : Fat32) (s : M.State)
      → IsCached content f
      → Good s
      → cluster / 128 + f.reserved_sector_count < 0xffff_ffff
      → cluster < 0x0fff_fff0
      → (g : Fat32) × (s' : M.State) × (get_next_cluster M cluster f s
          ≡ (fat_entry content f cluster, g, s'))
        × IsCached content g
        × SameVolume f g
        × Good s'
  unfolding get_next_cluster fat_entry
  get_next_cluster-entry cluster f s cached good near small =
      elim (Bool-cases (fat_miss f cluster)) [
        | inl miss ↦
            (let (r, s', e, good') =
                holds.reads (cluster / 128 + f.reserved_sector_count) f.fat_rec s (omega arith)
                  good in
              (
                record f {
                  fat_rec = content (cluster / 128 + f.reserved_sector_count);
                  fat_offset = cluster - cluster % 128;
                },
                s',
                rw (miss, e),
                inr (
                  omega arith,
                  omega arith,
                  ap (λ n. content (n + f.reserved_sector_count)) same_sector,
                ),
                record { clusters = refl; reserved = refl; fats = refl },
                good',
              ))
        | inr hit ↦ (
          f,
          s,
          rw (hit, cached_sector content f cluster cached small hit),
          cached,
          record { clusters = refl; reserved = refl; fats = refl },
          good,
        )
      ]
    where
      same_sector : cluster / 128 ≡ (cluster - cluster % 128) / 128
      same_sector = omega arith
