-- ===== src/Compress/RoundTrip.antt =====
-- LPTDecompress undoes LPTCompress.
use lptstore.Prelude.{
  ℕ, zero, suc, ◌+◌, ◌≤◌, ◌<◌, ◌≡◌, ◌≢◌, refl, sym, ap, ◌∙◌, true, false, List, [], ◌∷◌, ◌++◌,
  length, replicate, overlay_whole, arith,
}
use lptstore.Compress.{
  sector_size, compress, is_count, Unpacked, decompress_loop, decompress, decompress_into,
}
use lptstore.Compress.Encoding.{
  encode, compress-IsPacked, encode_end, encode_first, encode_full, encode_longer, encode_literal,
  encode_closed,
}
use native.Mathlib.Decide.{ℕ_discrete}
use mathlib.Core.List.{append_assoc, append-nil}

-- Where LPTDecompress stands after the code of a run of `c` zeros has been opened.
Ready : ℕ → List ℕ → Type 0
Ready zero before = (is_count before ≡ false) × (is_count (0x00 ∷ before) ≡ true)
Ready (suc c) before = (is_count before ≡ true)

-- A count is never itself taken for a marker.
after_count : (n : ℕ) (before : List ℕ) → is_count before ≡ true → is_count (n ∷ before) ≡ false
unfolding is_count
after_count n [] h = cc
after_count n (p ∷ []) h = ground arith
after_count n (p ∷ q ∷ before) h = ground arith

after_literal :
    (b : ℕ) (before : List ℕ)
    → b ≢ 0
    → (is_count (b ∷ before) ≡ false) × (is_count (0x00 ∷ b ∷ before) ≡ true)
unfolding is_count
after_literal b [] h = ground arith
after_literal b (p ∷ before) h = ground arith

-- One round of the loop, for each of its branches.
module _ (b : ℕ) (rest before out : List ℕ) (r : ℕ) where
  round_run :
      is_count before ≡ true
      → r + suc b ≤ sector_size
      → decompress_loop (b ∷ rest) before out r
        ≡ decompress_loop rest (b ∷ before) (out ++ replicate (suc b) 0x00) (r + suc b)
  unfolding decompress_loop
  round_run h k = let e : b + 1 ≡ suc b = omega arith in rw (h, e) (ground arith)

  round_marker :
      is_count before ≡ false
      → b ≡ 0
      → decompress_loop (b ∷ rest) before out r ≡ decompress_loop rest (b ∷ before) out r
  unfolding decompress_loop
  round_marker h k = rw h (ground arith)

  round_literal :
      is_count before ≡ false
      → b ≢ 0
      → decompress_loop (b ∷ rest) before out r
        ≡ decompress_loop rest (b ∷ before) (out ++ (b ∷ [])) (r + 1)
  unfolding decompress_loop
  round_literal h k = rw h (ground arith)

replicate_more {ℓ} :
    {A : Type ℓ} (n : ℕ) (a : A) (xs : List A)
    → replicate n a ++ (a ∷ xs) ≡ replicate (suc n) a ++ xs
replicate_more zero a xs = refl
replicate_more (suc n) a xs = ap (λ zs. a ∷ zs) (replicate_more n a xs)

-- The result when everything read so far and `bytes` have been put out.
Whole : List ℕ → List ℕ → ℕ → Unpacked
Whole out bytes n = record { written = out ++ bytes; ret = n }

Whole-append : (out xs ys : List ℕ) (n : ℕ) → Whole (out ++ xs) ys n ≡ Whole out (xs ++ ys) n
unfolding Whole
Whole-append out xs ys n = rw append_assoc

end :
    (before out : List ℕ) (r n : ℕ) (xs : List ℕ) {all : List ℕ}
    → out ++ xs ≡ all
    → r ≡ n
    → decompress_loop [] before all r ≡ Whole out xs n
unfolding Whole decompress_loop
end before out r n xs h k = rw (h, k)

decode_encode :
    (bytes : List ℕ) (c : ℕ) (before out : List ℕ) (r n : ℕ)
    → Ready c before
    → c < 256
    → r + c + length bytes ≡ n
    → n ≤ sector_size
    → decompress_loop (encode bytes c) before out r ≡ Whole out (replicate c 0x00 ++ bytes) n
unfolding Ready
decode_encode [] zero before out r n h small e fits =
    unfold encode in end before out r n [] (append-nil out) (omega arith)
decode_encode [] (suc c) before out r n h small e fits = rw (encode_end c) (
    round_run c [] before out r h (omega arith)
    ∙ end _ _ _ n (replicate (suc c) 0x00 ++ []) (rw append-nil) (omega arith))
decode_encode (zero ∷ bytes) zero before out r n h small e fits = rw (encode_first 0 bytes refl) (
    round_marker 0 _ before out r h.0 refl
    ∙ decode_encode bytes 1 _ out r n h.1 (omega arith) (omega arith) fits)
decode_encode (zero ∷ bytes) (suc c) before out r n h small e fits = elim (ℕ_discrete c 254) [
  | yes full ↦
      rw (full, encode_full 0 bytes refl)
        (round_run 255 _ before out r h (omega arith)
          ∙ decode_encode bytes 0 _ _ _ n (after_literal 255 before (omega arith)) (omega arith)
              (omega arith) fits
          ∙ Whole-append out (replicate 256 0x00) bytes n
          ∙ ap (λ xs. Whole out xs n) (sym (replicate_more 255 0x00 bytes)))
  | no more ↦ rw (encode_longer 0 bytes c refl (omega arith)) (
      decode_encode bytes (suc (suc c)) before out r n h (omega arith) (omega arith) fits
      ∙ ap (λ xs. Whole out xs n) (sym (replicate_more (suc c) 0x00 bytes)))
]
decode_encode (suc b ∷ bytes) zero before out r n h small e fits =
    let b_ne : suc b ≢ 0 = omega arith in
    rw (encode_literal (suc b) bytes b_ne) (
      round_literal (suc b) _ before out r h.0 b_ne
      ∙ decode_encode bytes 0 _ _ _ n (after_literal _ before b_ne) (omega arith) (omega arith) fits
      ∙ Whole-append out (suc b ∷ []) bytes n)
decode_encode (suc b ∷ bytes) (suc c) before out r n h small e fits =
    let b_ne : suc b ≢ 0 = omega arith in
    rw (encode_closed (suc b) bytes c b_ne) (
      round_run c _ before out r h (omega arith)
      ∙ round_literal (suc b) _ (c ∷ before) _ _ (after_count c before h) b_ne
      ∙ decode_encode bytes 0 _ _ _ n (after_literal _ _ b_ne) (omega arith) (omega arith) fits
      ∙ Whole-append _ (suc b ∷ []) bytes n
      ∙ Whole-append out (replicate (suc c) 0x00) (suc b ∷ bytes) n)

pub decompress-packed :
    (bytes : List ℕ)
    → length bytes ≡ sector_size
    → (compress bytes).ret ≢ 0
    → decompress (compress bytes).written ≡ record { written = bytes; ret = sector_size }
unfolding Ready
decompress-packed bytes size packed = rw ((compress-IsPacked bytes packed).written) (
    unfold decompress Whole in
    decode_encode bytes 0 [] [] 0 sector_size (refl, refl) (omega arith) (omega arith)
      (omega arith))

-- Where LPTCompress does not return 0 it returns the number of bytes that it wrote, and
-- LPTDecompress turns these back into the whole sector, whatever its buffer held before, and
-- returns 512.
pub decompress-compress :
    (bytes dest : List ℕ)
    → length bytes ≡ sector_size
    → length dest ≡ sector_size
    → (compress bytes).ret ≢ 0
    → (length (compress bytes).written ≡ (compress bytes).ret)
      × (decompress_into dest (compress bytes).written ≡ bytes)
      × ((decompress (compress bytes).written).ret ≡ sector_size)
decompress-compress bytes dest size room packed = (
  rw (written, ret),
  unfold decompress_into in rw decoded (overlay_whole bytes dest (omega arith)),
  rw decoded,
)
  where
    open (compress-IsPacked bytes packed) use {written, ret}

    decoded : decompress (compress bytes).written ≡ record { written = bytes; ret = sector_size }
    decoded = decompress-packed bytes size packed
