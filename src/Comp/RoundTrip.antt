-- ===== src/Comp/RoundTrip.antt =====
-- The file comes back.
use native.Mathlib.Decide.{ℕ_discrete}
use lptstore.Prelude.{
  ℕ, zero, suc, ◌*◌, ◌≡◌, ◌≢◌, ◌<◌, ◌≤◌, ◌⊎◌, refl, sym, ap, ◌∙◌, inl, inr, true, false, List, [],
  ◌++◌, ltb, ◌==◌, length, take, drop, overlay, take-overlay, take-overlay_sized, length-overlay,
  length-replicate, take-append-drop, drop_all, length-drop, arith, Bool-cases,
}
use lptstore.Compress.{sector_size, compress, decompress, decompress_into}
use lptstore.Compress.RoundTrip.{decompress-compress, decompress-packed}
use lptstore.Comms.Traffic.{length-take}
use lptstore.Comp.{done, fault, cleared, filled, recode_sector, recode}

length-cleared : length cleared ≡ sector_size
unfolding cleared
length-cleared = length-replicate {A = ℕ} sector_size 0x00

length-filled : (chunk : List ℕ) → length chunk ≤ sector_size → length (filled chunk) ≡ sector_size
length-filled chunk small =
    length-overlay chunk cleared (omega (arith, length-cleared)) ∙ length-cleared

-- A sector as it stands in `data` goes through both functions unchanged.
module _ (data_in : List ℕ) (size : length data_in ≡ sector_size)
    (packed : (compress data_in).ret ≢ 0) where
  abbrev cdata : List ℕ
  cdata = overlay (compress data_in).written cleared

  read_back : take (compress data_in).ret cdata ≡ (compress data_in).written
  read_back =
      take-overlay_sized (compress data_in).ret (compress data_in).written cleared
        (decompress-compress data_in cleared size length-cleared packed).0

  fits : ltb sector_size (length (decompress (take (compress data_in).ret cdata)).written) ≡ false
  fits = rw (read_back, decompress-packed data_in size packed) (ground (arith, size))

  comes_back : decompress_into cleared (take (compress data_in).ret cdata) ≡ data_in
  comes_back = rw read_back ((decompress-compress data_in cleared size length-cleared packed).1)

unpacked :
    (chunk : List ℕ) (small : length chunk ≤ sector_size)
    → (compress (filled chunk)).ret ≢ 0
    → ltb sector_size (length (compress (filled chunk)).written) ≡ false
    → recode_sector chunk ≡ done chunk
unfolding recode_sector
unpacked chunk small packed whole =
    let size = length-filled chunk small in
    let nonzero : ((compress (filled chunk)).ret == 0) ≡ false = ground arith in
    rw (whole, nonzero, fits (filled chunk) size packed, comes_back (filled chunk) size packed)
      (ap done (take-overlay chunk cleared))

-- LPTCompress writes behind `cdata`.
abbrev pub Overruns : List ℕ → Type 0
Overruns chunk = sector_size < length (compress (filled chunk)).written

recode_sector-same :
    (chunk : List ℕ)
    → length chunk ≤ sector_size
    → (recode_sector chunk ≡ done chunk) ⊎ ((recode_sector chunk ≡ fault) × Overruns chunk)
unfolding recode_sector
recode_sector-same chunk small =
    elim (Bool-cases (ltb sector_size (length (compress (filled chunk)).written))) [
      | inl over ↦ inr (rw over refl, ground (arith, over))
      | inr whole ↦ inl (elim (ℕ_discrete (compress (filled chunk)).ret 0) [
        | yes plain ↦ rw (whole, plain) (ap done (take-overlay chunk cleared))
        | no packed ↦ unpacked chunk small packed whole
      ])
    ]

abbrev pub sector_at : ℕ → List ℕ → List ℕ
sector_at zero file = take sector_size file
sector_at (suc i) file = sector_at i (drop sector_size file)

-- What main of fs/comp.c writes is the file that it reads, whatever its length, where it has a round
-- for each sector and one more; unless LPTCompress writes behind the 512 bytes of `cdata` for a sector
-- of the file.
pub recode-same :
    (rounds : ℕ) (file : List ℕ)
    → length file < sector_size * rounds
    → (recode rounds file ≡ done file)
      ⊎ ((recode rounds file ≡ fault) × ((i : ℕ) × Overruns (sector_at i file)))
unfolding recode
recode-same zero file enough = absurd (omega (arith, enough))
recode-same (suc rounds) file enough =
    elim (recode_sector-same (take sector_size file) (length-take sector_size file)) [
      | inr (over, at) ↦ inr (rw over refl, (0, at))
      | inl once ↦ elim (Bool-cases (ltb (length file) sector_size)) [
        | inl last ↦ inl (rw (once, last) (ap done (rest_empty last)))
        | inr more ↦ elim (recode-same rounds (drop sector_size file) (fewer more)) [
          | inl rest ↦ inl (rw (once, more, rest) (ap done (take-append-drop sector_size file)))
          | inr (over, (i, at)) ↦ inr (rw (once, more, over) refl, (suc i, at))
        ]
      ]
    ]
  where
    fewer :
        ltb (length file) sector_size ≡ false
        → length (drop sector_size file) < sector_size * rounds
    fewer more =
        let whole : sector_size ≤ length file = ground (arith, more) in
        omega (arith, enough, whole, length-drop sector_size file)

    rest_empty : ltb (length file) sector_size ≡ true → take sector_size file ++ [] ≡ file
    rest_empty last =
        ap (λ l. take sector_size file ++ l)
          (sym (drop_all sector_size file (ground (arith, last))))
        ∙ take-append-drop sector_size file
