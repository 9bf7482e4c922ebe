-- ===== src/Comp.antt =====
-- main of fs/comp.c: a file goes through LPTCompress and LPTDecompress sector by sector. The two functions,
-- which that file repeats, are those of `Compress`; what is printed is left out.
pub mod RoundTrip
use lptstore.Prelude.{
  ℕ, zero, suc, ◌+◌, Bool, List, [], ◌∷◌, ◌++◌, ltb, ◌==◌, ◌||◌, if◌then◌else◌, length, take, drop,
  replicate, overlay,
}
use lptstore.Compress.{sector_size, compress, decompress, decompress_into}

-- What is written to output.bin. `fault` is a write behind `cdata` or `data`; `running` is a loop with
-- no rounds left.
pub data Output : Type 0 where
  done : List ℕ → Output
  fault : Output
  running : Output

-- `memset` to zero.
unfoldable pub cleared : List ℕ
cleared = replicate sector_size 0x00

-- `data` behind the `fread` of `chunk`.
abbrev pub filled : List ℕ → List ℕ
filled chunk = overlay chunk cleared

-- `data` and `cdata` hold a sector each; `c` bytes of `cdata` are read back.
unfoldable pub recode_sector : List ℕ → Output
recode_sector chunk =
    let a = length chunk in
    let sector = filled chunk in
    let packed = compress sector in
    let c = packed.ret in
    let cdata = overlay packed.written cleared in
    let read_back = take c cdata in
    if ltb sector_size (length packed.written)
    then fault
    else if c == 0
    then done (take a sector)
    else if ltb sector_size (length (decompress read_back).written)
    then fault
    else done (take a (decompress_into cleared read_back))

abbrev pub append : Output → Output → Output
append (done bytes) (done rest) = done (bytes ++ rest)
append (done bytes) fault = fault
append (done bytes) running = running
append fault more = fault
append running more = running

-- A `fread` that finds less than a sector is the one after which `feof` holds.
unfoldable pub recode : ℕ → List ℕ → Output
unfolding recode_sector
recode zero file = running
recode (suc rounds) file =
    let more = recode rounds (drop sector_size file) in
    append (recode_sector (take sector_size file))
      (if ltb (length file) sector_size then done [] else more)
