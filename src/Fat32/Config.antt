-- ===== src/Fat32/Config.antt =====
-- What init_disk does last: the file of the configuration is checked as those of the disks are.
use Prim.Native.Nat.{bit_or}
use lptstore.Prelude.{
  ℕ, ◌+◌, ◌^◌, ◌≡◌, ◌<◌, inl, inr, refl, sym, ap, if◌then◌else◌, ◌∙◌, false, List, arith,
  Bool-cases, ◌==◌,
}
use lptstore.Fat32.{Medium, Fat32, Disks, ended, config_block, file_has_gaps}
use lptstore.Fat32.Volume.{check_config}
use lptstore.Fat32.Rounds.{SameVolume}
use lptstore.Fat32.Cache.{Holds, IsCached}
use lptstore.Fat32.Verdicts.{Within, IsVolume}
use lptstore.Fat32.Decides.{gap_loop-Decides}
use lptstore.Fat32.Drives.{bit_or-above, config_bit}

module _ {M : Medium} {content : ℕ → List ℕ} {Good : M.State → Type 0}
    (holds : Holds M content Good) (f : Fat32) (sized : IsVolume content f) where
  pub check_config-arrays :
      (fuel : ℕ) (g : Fat32) (d : Disks) (s : M.State)
      → Within sized.size.clusters d.cfg_cluster
      → d.disk_bitmap < 2 ^ 31
      → 0x0fff_fff0 < fuel
      → IsCached content g
      → SameVolume f g
      → Good s
      → (e : Disks) × (t : M.State) × (check_config M fuel g d s ≡ ended (e, t))
        × (e.disk_lba ≡ d.disk_lba)
        × (e.disk_cluster ≡ d.disk_cluster)
        × (e.disk_bitmap ≡ d.disk_bitmap + config_bit e.cfg_cluster)
        × Good t
  unfolding check_config
  check_config-arrays fuel g d s bound low enough cached same good =
      elim (Bool-cases (d.cfg_cluster == 0)) [
        | inl e ↦ (d, s, rw e, refl, refl, ground arith, good)
        | inr e ↦ active e
      ]
    where
      active :
          (d.cfg_cluster == 0) ≡ false
          → (e : Disks) × (t : M.State) × (check_config M fuel g d s ≡ ended (e, t))
            × (e.disk_lba ≡ d.disk_lba)
            × (e.disk_cluster ≡ d.disk_cluster)
            × (e.disk_bitmap ≡ d.disk_bitmap + config_bit e.cfg_cluster)
            × Good t
      active e =
          let decided =
            gap_loop-Decides holds f sized fuel d.cfg_cluster g s bound enough cached same good in
          let (r, h, t, run, verdict, cached', same', good') = decided in
          let found : file_has_gaps M fuel d.cfg_cluster g s ≡ ended (r, h, t) =
            unfold file_has_gaps in run in
          elim verdict [
            | inl (good, all) ↦ (
              record d { disk_bitmap = bit_or d.disk_bitmap config_block },
              t,
              rw (check_config, e, found, good),
              refl,
              refl,
              bit_or-above 31 d.disk_bitmap low
                  ∙ ap (λ b. d.disk_bitmap + (if b then 0 else 0x8000_0000)) (sym e),
              good',
            )
            | inr (bad, k, reached, gap) ↦ (
              record d { cfg_cluster = 0 },
              t,
              rw (check_config, e, found, bad),
              refl,
              refl,
              omega arith,
              good',
            )
          ]
