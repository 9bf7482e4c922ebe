-- ===== src/Examples/Sectors.antt =====
-- LPTCompress and LPTDecompress on sectors, whole and in part.
use lptstore.Prelude.{
  ℕ, ◌+◌, ◌≤◌, ◌<◌, ◌≡◌, ◌≢◌, refl, List, [], ◌∷◌, ◌++◌, length, All, replicate, arith, zero, suc,
}
use lptstore.Compress.{
  sector_size, compress, compress_loop, pack_byte, pack_zero, pack_literal, pack_end, emit,
  decompress, decompress_into,
}
use lptstore.Compress.RoundTrip.{decompress-compress}
use lptstore.Compress.Bounds.{spaced, compress_bounds, compress_overrun, decompress_overrun}

-- A boot sector's first bytes, then zeros.
abbrev sparse : List ℕ
sparse = 0xeb ∷ 0x00 ∷ 0x90 ∷ replicate 509 0

compress-sparse :
    (compress sparse).written ≡ 0xeb ∷ 0x00 ∷ 0x00 ∷ 0x90 ∷ 0x00 ∷ 0xff ∷ 0x00 ∷ 252 ∷ []
unfolding compress compress_loop pack_byte pack_zero pack_literal pack_end emit
compress-sparse = refl

sparse-packed : (compress sparse).ret ≢ 0
unfolding compress compress_loop pack_byte pack_zero pack_literal pack_end emit
sparse-packed = omega arith

decompress-compress_example :
    (length (compress sparse).written ≡ (compress sparse).ret)
    × (decompress_into (replicate 512 7) (compress sparse).written ≡ sparse)
    × ((decompress (compress sparse).written).ret ≡ sector_size)
decompress-compress_example = decompress-compress sparse (replicate 512 7) refl refl sparse-packed

compress_bounds_example :
    (length (compress sparse).written ≤ sector_size + 1) × ((compress sparse).ret < sector_size)
compress_bounds_example = compress_bounds sparse

All-ones : (n : ℕ) → All (λ (y : ℕ). y ≢ 0) (replicate n 1)
All-ones zero = tt
All-ones (suc n) = (omega arith, All-ones n)

compress_overrun_example :
    length (compress (spaced (1 ∷ replicate 170 1) ++ replicate 170 9)).written ≡ sector_size + 1
compress_overrun_example =
    compress_overrun 1 (replicate 170 1) (replicate 170 9) (All-ones 171) refl

decompress_overrun_example :
    ((decompress (0x00 ∷ 0xff ∷ 0x00 ∷ 0xff ∷ 5 ∷ [])).written ≡ replicate 512 0x00 ++ (5 ∷ []))
    × ((decompress (0x00 ∷ 0xff ∷ 0x00 ∷ 0xff ∷ 5 ∷ [])).ret ≡ sector_size + 1)
decompress_overrun_example = decompress_overrun (5 ∷ []) (omega arith, tt)
