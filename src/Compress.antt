-- ===== src/Compress.antt =====
-- The zero-run coding of sectors: LPTCompress and LPTDecompress. pico/lptprotocol.c and
-- dos/SDPP10/LPTSTORE.C (and the test program fs/comp.c) hold the same two functions.
pub mod Encoding
pub mod Bounds
pub mod RoundTrip
use lptstore.Prelude.{
  ℕ, ◌+◌, ◌-◌, ◌<◌, Bool, false, not, ◌&&◌, List, [], ◌∷◌, ◌++◌, ltb, leb, ◌==◌, if◌then◌else◌,
  replicate, overlay,
}

abbrev pub sector_size : ℕ
sector_size = 512

abbrev pub IsByte : ℕ → Type 0
IsByte b = b < 256

-- The locals of the loop of LPTCompress: the run length `c`, the index `r` of the next write, and
-- the bytes written to `out` so far.
pub record Packer : Type 0 where
  pub c : ℕ
  pub r : ℕ
  pub out : List ℕ

-- `out[r++] = b`
unfoldable pub emit : ℕ → Packer → Packer
emit b p = record p { r = p.r + 1; out = p.out ++ (b ∷ []) }

-- The body of the loop for `data[i] == 0x00`.
unfoldable pub pack_zero : Packer → Packer
unfolding emit
pack_zero p =
    if p.c == 0
    then (let q = emit 0x00 p in record q { c = p.c + 1 })
    else if p.c == 255
    then (let q = emit 0xff p in record q { c = 0 })
    else record p { c = p.c + 1 }

-- The `else` branch: a run that is open is closed by its length less one.
unfoldable pub pack_literal : ℕ → Packer → Packer
unfolding emit
pack_literal b p =
    if p.c == 0 then emit b p else (let q = emit (p.c - 1) p in emit b (record q { c = 0 }))

unfoldable pub pack_byte : ℕ → Packer → Packer
unfolding pack_zero pack_literal
pack_byte b p = if b == 0x00 then pack_zero p else pack_literal b p

-- The bytes written to `out`, and the value returned.
pub record Packed : Type 0 where
  pub written : List ℕ
  pub ret : ℕ

-- What follows the loop.
unfoldable pub pack_end : Packer → Packed
unfolding emit
pack_end p =
    let q = if p.c == 0 then p else emit (p.c - 1) p in
    record { written = q.out; ret = if leb sector_size q.r then 0 else q.r }

unfoldable pub compress_loop : List ℕ → Packer → Packed
unfolding pack_byte pack_end
compress_loop [] p = pack_end p
compress_loop (b ∷ rest) p =
    let q = pack_byte b p in
    let more = compress_loop rest q in
    if leb sector_size q.r then record { written = q.out; ret = 0 } else more

-- The 512 bytes of `data` are the list; the loop runs over all of them.
unfoldable pub compress : List ℕ → Packed
unfolding compress_loop
compress bytes = compress_loop bytes (record { c = 0; r = 0; out = [] })

-- Is the byte behind `before` (the bytes already read, the last first) a run length?
-- `i > 0 && data[i-1] == 0x00 && !(i > 1 && data[i-2] == 0x00)`
unfoldable pub is_count : List ℕ → Bool
is_count [] = false
is_count (p ∷ []) = p == 0x00
is_count (p ∷ q ∷ _) = (p == 0x00) && not (q == 0x00)

pub record Unpacked : Type 0 where
  pub written : List ℕ
  pub ret : ℕ

-- The loop of LPTDecompress over `data[i..len]`; `r` is the index of the next write to `out`.
unfoldable pub decompress_loop : List ℕ → List ℕ → List ℕ → ℕ → Unpacked
unfolding is_count
decompress_loop [] before out r = record { written = out; ret = r }
decompress_loop (b ∷ rest) before out r =
    let c = b + 1 in
    let run = decompress_loop rest (b ∷ before) (out ++ replicate c 0x00) (r + c) in
    let literal = decompress_loop rest (b ∷ before) (out ++ (b ∷ [])) (r + 1) in
    let marker = decompress_loop rest (b ∷ before) out r in
    if is_count before
    then if ltb sector_size (r + c) then record { written = out; ret = 0 } else run
    else if b == 0x00
    then marker
    else literal

unfoldable pub decompress : List ℕ → Unpacked
unfolding decompress_loop
decompress bytes = decompress_loop bytes [] [] 0

-- The destination after LPTDecompress: what was written lies over its front.
unfoldable pub decompress_into : List ℕ → List ℕ → List ℕ
unfolding decompress
decompress_into dest bytes = overlay (decompress bytes).written dest
