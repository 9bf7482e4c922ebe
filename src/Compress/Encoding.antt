-- ===== src/Compress/Encoding.antt =====
-- The coding of LPTCompress as a recursion on the sector, without the 512 byte limit.
use lptstore.Prelude.{
  ℕ, suc, ◌+◌, ◌-◌, ◌<◌, ◌≡◌, ◌≢◌, refl, ap, List, [], ◌∷◌, ◌++◌, leb, ◌==◌, if◌then◌else◌, length,
  length-append, arith, All, Bool-cases, false, inl, inr,
}
use lptstore.Compress.{
  sector_size, IsByte, Packer, Packed, emit, pack_byte, pack_zero, pack_literal, pack_end,
  compress_loop, compress,
}
use mathlib.Core.List.{append_assoc, append-nil}

-- The code of `bytes` when `c` zeros of an open run have been read.
unfoldable pub encode : List ℕ → ℕ → List ℕ
encode [] c = if c == 0 then [] else (c - 1) ∷ []
encode (b ∷ rest) c =
    let first = 0x00 ∷ encode rest 1 in
    let full = 0xff ∷ encode rest 0 in
    let longer = encode rest (c + 1) in
    let literal = b ∷ encode rest 0 in
    if b == 0x00
    then (if c == 0 then first else if c == 255 then full else longer)
    else (if c == 0 then literal else (c - 1) ∷ literal)

-- What one round of the loop writes, and the run length after it.
encode_step :
    (b : ℕ) (rest : List ℕ) (p : Packer)
    → (pack_byte b p).out ++ encode rest (pack_byte b p).c ≡ p.out ++ encode (b ∷ rest) p.c
unfolding encode pack_byte pack_zero pack_literal emit
encode_step b rest p = ground (
  arith,
  append_assoc p.out (0x00 ∷ []) (encode rest 1),
  append_assoc p.out (0xff ∷ []) (encode rest 0),
  append_assoc p.out (b ∷ []) (encode rest 0),
  append_assoc p.out ((p.c - 1) ∷ []) (b ∷ []),
  append_assoc p.out ((p.c - 1) ∷ b ∷ []) (encode rest 0),
)

r_step : (b : ℕ) (p : Packer) → p.r ≡ length p.out → (pack_byte b p).r ≡ length (pack_byte b p).out
unfolding pack_byte pack_zero pack_literal emit
r_step b p h = ground (
  arith,
  length-append p.out (0x00 ∷ []),
  length-append p.out (0xff ∷ []),
  length-append p.out (b ∷ []),
  length-append p.out ((p.c - 1) ∷ []),
  length-append (p.out ++ ((p.c - 1) ∷ [])) (b ∷ []),
)

-- What the loop writes and returns, against the code of the sector.
pub record Fits (code : List ℕ) (q : Packed) : Type 0 where
  pub size : q.ret ≡ (if leb sector_size (length code) then 0 else length code)
  pub bytes : leb sector_size (length code) ≡ false → q.written ≡ code

pack_end-Fits : (p : Packer) → p.r ≡ length p.out → Fits (p.out ++ encode [] p.c) (pack_end p)
unfolding pack_end emit encode
pack_end-Fits p h = elim (Bool-cases (p.c == 0)) [
  | inl closed ↦ rw (closed, append-nil) (record { size = rw h; bytes = λ _. refl })
  | inr run ↦
      rw run
        (record { size = ground (arith, length-append p.out ((p.c - 1) ∷ [])); bytes = λ _. refl })
]

compress_loop-Fits :
    (bytes : List ℕ) (p : Packer)
    → p.r ≡ length p.out
    → Fits (p.out ++ encode bytes p.c) (compress_loop bytes p)
unfolding compress_loop
compress_loop-Fits [] p h = pack_end-Fits p h
compress_loop-Fits (b ∷ rest) p h = elim (Bool-cases (leb sector_size (pack_byte b p).r)) [
  | inl full ↦
      rw full (record { size = ground (arith, too_long); bytes = λ e. ground (arith, too_long) })
  | inr room ↦
      rw (room, ← encode_step b rest p) (compress_loop-Fits rest (pack_byte b p) (r_step b p h))
]
  where
    too_long :
        (pack_byte b p).r + length (encode rest (pack_byte b p).c)
        ≡ length (p.out ++ encode (b ∷ rest) p.c)
    too_long = omega (
      arith,
      r_step b p h,
      length-append (pack_byte b p).out (encode rest (pack_byte b p).c),
      ap (length {A = ℕ}) (encode_step b rest p),
    )

pub compress-Fits : (bytes : List ℕ) → Fits (encode bytes 0) (compress bytes)
unfolding compress
compress-Fits bytes = compress_loop-Fits bytes (record { c = 0; r = 0; out = [] }) refl

-- The branches of `encode`.
pub encode_end : (c : ℕ) → encode [] (suc c) ≡ c ∷ []
unfolding encode
encode_end c = let e : suc c - 1 ≡ c = omega arith in rw (← e) (ground arith)

module _ (b : ℕ) (rest : List ℕ) where
  pub encode_first : b ≡ 0 → encode (b ∷ rest) 0 ≡ 0x00 ∷ encode rest 1
  unfolding encode
  encode_first h = ground arith

  pub encode_full : b ≡ 0 → encode (b ∷ rest) 255 ≡ 0xff ∷ encode rest 0
  unfolding encode
  encode_full h = ground arith

  pub encode_longer :
      (c : ℕ) → b ≡ 0 → suc c ≢ 255 → encode (b ∷ rest) (suc c) ≡ encode rest (suc (suc c))
  unfolding encode
  encode_longer c h k = let e : suc c + 1 ≡ suc (suc c) = omega arith in rw (← e) (ground arith)

  pub encode_literal : b ≢ 0 → encode (b ∷ rest) 0 ≡ b ∷ encode rest 0
  unfolding encode
  encode_literal h = ground arith

  pub encode_closed : (c : ℕ) → b ≢ 0 → encode (b ∷ rest) (suc c) ≡ c ∷ b ∷ encode rest 0
  unfolding encode
  encode_closed c h = let e : suc c - 1 ≡ c = omega arith in rw (← e) (ground arith)

-- A sector that is compressed is its code, of fewer than 512 bytes.
pub record IsPacked (bytes : List ℕ) : Type 0 where
  pub written : (compress bytes).written ≡ encode bytes 0
  pub ret : (compress bytes).ret ≡ length (encode bytes 0)
  pub short : length (encode bytes 0) < sector_size

pub compress-IsPacked : (bytes : List ℕ) → (compress bytes).ret ≢ 0 → IsPacked bytes
compress-IsPacked bytes h = elim (Bool-cases (leb sector_size (length (encode bytes 0)))) [
  | inl long ↦ absurd (h (let e = fits.size in rw long at e))
  | inr short ↦ record {
    written = fits.bytes short;
    ret = (let e = fits.size in rw short at e);
    short = ground arith;
  }
]
  where
    fits : Fits (encode bytes 0) (compress bytes)
    fits = compress-Fits bytes

pub encode-IsByte :
    (bytes : List ℕ) (c : ℕ) → c < 256 → All IsByte bytes → All IsByte (encode bytes c)
unfolding encode
encode-IsByte [] c h bs = ground arith
encode-IsByte (b ∷ rest) c h (hb, hs) =
    ground (arith, encode-IsByte rest 1, encode-IsByte rest 0, encode-IsByte rest (c + 1))
