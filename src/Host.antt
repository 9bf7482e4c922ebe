-- ===== src/Host.antt =====
-- LPTRead and LPTWrite of dos/SDPP10/LPTSTORE.C over any peer that takes and gives bytes. How
-- read_byte and write_byte move a byte over the wires is in `Handshake`.
pub mod Laws
use lptstore.Prelude.{
  ℕ, zero, suc, ◌+◌, ◌-◌, ◌*◌, ◌/◌, ◌%◌, ◌^◌, Bool, true, false, List, [], ◌∷◌, ◌++◌, ◌==◌, ltb,
  if◌then◌else◌, Option, none, some, take, drop, length, overlay,
}
use lptstore.Compress.{sector_size, compress, decompress}
use lptstore.Protocol.{lpts_read_block, lpts_write_block}

-- The far end of the cable. `none`: the driver waits for ever, since its loops have no timeout.
pub record Peer : Type 1 where
  pub State : Type 0
  pub put : ℕ → State → Option State
  pub get : State → Option (ℕ × State)

-- DRESULT of LPTSTORE.H.
abbrev pub res_ok : ℕ
res_ok = 0

abbrev pub res_error : ℕ
res_error = 1

abbrev pub res_wrprt : ℕ
res_wrprt = 2

abbrev pub res_notrdy : ℕ
res_notrdy = 3

abbrev pub res_parerr : ℕ
res_parerr = 4

-- `BYTE compress_buff[1024]`
abbrev pub compress_room : ℕ
compress_room = 1024

-- `fault` is a write past the end of a buffer.
pub data Run (S A : Type 0) : Type 0 where
  ok : A → S → Run S A
  waits : Run S A
  fault : Run S A

module _ {S : Type 0} where
  abbrev pub pure : {A : Type 0} → A → S → Run S A
  pure a s = ok a s

  infixl 5 ◌>>=◌ ◌>>◌
  abbrev pub ◌>>=◌ : {A B : Type 0} → (S → Run S A) → (A → S → Run S B) → S → Run S B
  ◌>>=◌ m f s = elim (m s) [ ok a s' ↦ f a s' | waits ↦ waits | fault ↦ fault ]

  abbrev pub ◌>>◌ : {B : Type 0} → (S → Run S (Unit {0})) → (S → Run S B) → S → Run S B
  m >> k = m >>= λ _. k

  abbrev pub halt : {A : Type 0} → S → Run S A
  halt s = fault

module _ (P : Peer) where
  unfoldable pub read_byte : P.State → Run P.State ℕ
  read_byte s = elim (P.get s) [ none ↦ waits | some (b, s') ↦ ok b s' ]

  -- The argument is a BYTE.
  unfoldable pub write_byte : ℕ → P.State → Run P.State (Unit {0})
  write_byte b s = elim (P.put (b % 256) s) [ none ↦ waits | some s' ↦ ok tt s' ]

  unfoldable pub read_many : ℕ → P.State → Run P.State (List ℕ)
  read_many zero = pure []
  read_many (suc n) = do b ← read_byte; rest ← read_many n; pure (b ∷ rest)

  unfoldable pub write_many : List ℕ → P.State → Run P.State (Unit {0})
  write_many [] = pure tt
  write_many (b ∷ rest) = do write_byte b; write_many rest

  -- The answer 0x02: `int c` has 16 bits, so a count from 0x8000 on is negative, and no byte is read.
  -- The result is what is written from `*buffer` on.
  unfoldable pub read_packed : P.State → Run P.State (List ℕ)
  read_packed = do
    hi ← read_byte
    lo ← read_byte
    let n = hi * 2 ^ 8 + lo
    let c = if ltb n 0x8000 then n else 0
    if ltb compress_room c then halt else (do bytes ← read_many c; pure (decompress bytes).written)

  -- One round of LPTRead; `none` is the branch that sets RES_ERROR.
  unfoldable pub read_round : ℕ → ℕ → P.State → Run P.State (Option (List ℕ))
  read_round unit lbn = do
    write_many (lpts_read_block ∷ unit ∷ 0x00 ∷ 0x00 ∷ (lbn / 2 ^ 8) ∷ (lbn % 256) ∷ [])
    result ← read_byte
    if result == 0x00
        then (do bytes ← read_many 512; pure (some bytes))
        else if result == 0x02
        then (do bytes ← read_packed; pure (some bytes))
        else pure none

  -- LPTRead with `count` rounds to go; the list is the memory from `*buffer` on.
  unfoldable pub lpt_read : ℕ → ℕ → ℕ → List ℕ → P.State → Run P.State (ℕ × List ℕ)
  lpt_read zero unit lbn dest = pure (res_ok, dest)
  lpt_read (suc count) unit lbn dest = do
    answer ← read_round unit lbn
    elim answer [
      | none ↦ pure (res_error, dest)
      | some bytes ↦ if ltb (length dest) (length bytes) then halt else (do
        (ret, behind) ← lpt_read count unit ((lbn + 1) % 2 ^ 16) (drop 512 (overlay bytes dest))
        pure (ret, take 512 (overlay bytes dest) ++ behind))
    ]

  -- The `if` of LPTWrite over the 512 bytes at `*buffer`.
  unfoldable pub write_payload : ℕ → List ℕ → P.State → Run P.State (Unit {0})
  write_payload lbn sector =
      let packed = compress sector in
      let c = packed.ret in
      if c == 0
      then write_many (0x00 ∷ 0x00 ∷ (lbn / 2 ^ 8) ∷ (lbn % 256) ∷ sector)
      else write_many
          ((c / 2 ^ 8) ∷ (c % 256) ∷ (lbn / 2 ^ 8) ∷ (lbn % 256) ∷ take c packed.written)

  -- One round of LPTWrite: the answer of the target.
  unfoldable pub write_round : ℕ → ℕ → List ℕ → P.State → Run P.State ℕ
  write_round unit lbn sector = do
    write_many (lpts_write_block ∷ unit ∷ [])
    write_payload lbn sector
    read_byte

  unfoldable pub lpt_write : ℕ → ℕ → ℕ → List ℕ → P.State → Run P.State ℕ
  lpt_write zero unit lbn src = pure res_ok
  lpt_write (suc count) unit lbn src = do
    result ← write_round unit lbn (take 512 src)
    if result == 0 then lpt_write count unit ((lbn + 1) % 2 ^ 16) (drop 512 src) else pure res_error
