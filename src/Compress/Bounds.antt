-- ===== src/Compress/Bounds.antt =====
-- How far LPTCompress and LPTDecompress write into their output buffers.
use mathlib.Core.List.{append_assoc, append-nil}
use lptstore.Prelude.{
  ℕ, suc, ◌+◌, ◌-◌, ◌*◌, ◌≤◌, ◌<◌, ◌≡◌, ◌≢◌, refl, false, List, [], ◌∷◌, ◌++◌, length,
  length-append, All, arith, false, replicate, sym, ◌∙◌, ◌==◌,
}
use lptstore.Compress.{
  sector_size, Packer, emit, pack_byte, pack_zero, pack_literal, pack_end, compress_loop, compress,
  decompress, decompress_loop, is_count,
}

length-emit : (out : List ℕ) (b : ℕ) → length (out ++ (b ∷ [])) ≡ suc (length out)
length-emit out b = omega (arith, length-append out (b ∷ []))

-- One round writes two bytes at most.
pack_byte-length :
    (b : ℕ) (p : Packer)
    → p.r ≡ length p.out
    → ((pack_byte b p).r ≡ length (pack_byte b p).out) × ((pack_byte b p).r ≤ p.r + 2)
unfolding pack_byte pack_zero pack_literal emit
pack_byte-length b p h = ground (
  arith,
  length-emit p.out 0x00,
  length-emit p.out 0xff,
  length-emit p.out b,
  length-emit p.out (p.c - 1),
  length-emit (p.out ++ ((p.c - 1) ∷ [])) b,
)

pack_end-length :
    (p : Packer)
    → p.r ≡ length p.out
    → p.r < sector_size
    → (length (pack_end p).written ≤ sector_size) × ((pack_end p).ret < sector_size)
unfolding pack_end emit
pack_end-length p h k = ground (arith, length-emit p.out (p.c - 1))

compress_loop-length :
    (bytes : List ℕ) (p : Packer)
    → p.r ≡ length p.out
    → p.r < sector_size
    → (length (compress_loop bytes p).written ≤ sector_size + 1)
      × ((compress_loop bytes p).ret < sector_size)
unfolding compress_loop
compress_loop-length [] p h k = omega (arith, pack_end-length p h k)
compress_loop-length (b ∷ rest) p h k =
    ground (arith, pack_byte-length b p, compress_loop-length rest (pack_byte b p))

-- Whatever its input is, LPTCompress returns less than 512 and writes `out[0]` to `out[512]` at most:
-- one byte more than a sector.
pub compress_bounds :
    (bytes : List ℕ)
    → (length (compress bytes).written ≤ sector_size + 1) × ((compress bytes).ret < sector_size)
unfolding compress
compress_bounds bytes =
    compress_loop-length bytes (record { c = 0; r = 0; out = [] }) refl (omega arith)

-- A zero in front of each byte.
unfoldable pub spaced : List ℕ → List ℕ
spaced [] = []
spaced (x ∷ xs) = 0x00 ∷ x ∷ spaced xs

-- A zero and a literal write three bytes.
pair_writes :
    (x : ℕ) (p : Packer)
    → x ≢ 0
    → p.c ≡ 0
    → p.r ≡ length p.out
    → ((pack_byte 0x00 p).r ≡ p.r + 1)
      × ((pack_byte x (pack_byte 0x00 p)).c ≡ 0)
      × ((pack_byte x (pack_byte 0x00 p)).r ≡ p.r + 3)
      × (length (pack_byte x (pack_byte 0x00 p)).out ≡ p.r + 3)
unfolding pack_byte pack_zero pack_literal emit
pair_writes x p hx hc hr = ground (
  arith,
  length-emit p.out 0x00,
  length-emit (p.out ++ (0x00 ∷ [])) (p.c + 1 - 1),
  length-emit ((p.out ++ (0x00 ∷ [])) ++ ((p.c + 1 - 1) ∷ [])) x,
)

spaced_overrun :
    (x : ℕ) (xs rest : List ℕ) (p : Packer)
    → All (λ y. y ≢ 0) (x ∷ xs)
    → p.c ≡ 0
    → p.r ≡ length p.out
    → p.r + 3 * length (x ∷ xs) ≡ sector_size + 1
    → length (compress_loop (spaced (x ∷ xs) ++ rest) p).written ≡ sector_size + 1
unfolding compress_loop spaced
spaced_overrun x [] rest p ne hc hr e = ground (arith, pair_writes x p)
spaced_overrun x (y ∷ xs) rest p ne hc hr e =
    ground (arith, pair_writes x p, spaced_overrun y xs rest (pack_byte x (pack_byte 0x00 p)))

-- A sector that begins with 171 bytes other than 0, each behind a single 0, makes LPTCompress
-- write 513 bytes: one behind the end of the 512 bytes that pico/lptprotocol.c has for them.
pub compress_overrun :
    (x : ℕ) (xs rest : List ℕ)
    → All (λ y. y ≢ 0) (x ∷ xs)
    → length (x ∷ xs) ≡ 171
    → length (compress (spaced (x ∷ xs) ++ rest)).written ≡ sector_size + 1
unfolding compress
compress_overrun x xs rest ne e =
    spaced_overrun x xs rest (record { c = 0; r = 0; out = [] }) ne refl refl (omega arith)

literals :
    (xs before out : List ℕ) (r : ℕ)
    → All (λ y. y ≢ 0) xs
    → is_count before ≡ false
    → ((decompress_loop xs before out r).written ≡ out ++ xs)
      × ((decompress_loop xs before out r).ret ≡ r + length xs)
unfolding decompress_loop is_count
literals [] before out r ne h = (sym (append-nil out), omega arith)
literals (x ∷ xs) before out r (ne, all) h =
    let (written, ret) =
      literals xs (x ∷ before) (out ++ (x ∷ [])) (r + 1) all (no_count x before ne) in
    let nonzero : (x == 0x00) ≡ false = ground (arith, ne) in
    (
      rw (decompress_loop, h, nonzero) (written ∙ append_assoc out (x ∷ []) xs),
      rw (decompress_loop, h, nonzero) (omega (arith, ret)),
    )
  where
    no_count : (x : ℕ) (before : List ℕ) → x ≢ 0 → is_count (x ∷ before) ≡ false
    no_count x [] ne = ground (arith, ne)
    no_count x (p ∷ before) ne = ground (arith, ne)

-- LPTDecompress checks the room for runs alone: behind two full runs, which make 512 zeros, every
-- further byte that is not 0 is written, behind the end of the sector, and counted.
pub decompress_overrun :
    (xs : List ℕ)
    → All (λ y. y ≢ 0) xs
    → ((decompress (0x00 ∷ 0xff ∷ 0x00 ∷ 0xff ∷ xs)).written ≡ replicate 512 0x00 ++ xs)
      × ((decompress (0x00 ∷ 0xff ∷ 0x00 ∷ 0xff ∷ xs)).ret ≡ sector_size + length xs)
unfolding decompress decompress_loop is_count
decompress_overrun xs ne = literals xs _ _ 512 ne refl
