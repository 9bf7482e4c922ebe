-- ===== src/Comms.antt =====
-- The parallel port as pico/lptprotocol.c sees it: whole bytes, and the block transfers of
-- pico/lptcomms.c over them. The handshake that moves a byte is in `Handshake`.
pub mod Laws
pub mod Traffic
use lptstore.Prelude.{
  ℕ, zero, suc, ◌+◌, ◌-◌, ◌%◌, Bool, true, false, not, ◌||◌, List, [], ◌∷◌, ◌++◌, ◌==◌,
  if◌then◌else◌, Option, none, some,
}

-- The host's side of one call of lptprotocol_task: the bytes that it completes, whether it begins
-- one more and never ends it, how many bytes it takes before a write times out, and those it took.
pub record Link : Type 0 where
  pub incoming : List ℕ
  pub hanging : Bool
  pub room : ℕ
  pub outgoing : List ℕ

unfoldable pub hasbyte : Link → Bool
hasbyte l = elim l.incoming [ [] ↦ l.hanging | _ ∷ _ ↦ true ]

-- `none` is the result -1, a timeout.
unfoldable pub readbyte : Link → Option ℕ × Link
readbyte l = elim l.incoming [
  | [] ↦ (none, record l { hanging = false })
  | b ∷ rest ↦ (some b, record l { incoming = rest })
]

-- The result is true where the C function returns 0.
unfoldable pub writebyte : ℕ → Link → Bool × Link
writebyte b l =
    if l.room == 0
    then (false, l)
    else (true, record l { room = l.room - 1; outgoing = l.outgoing ++ ((b % 256) ∷ []) })

-- The outcome of lptcomms_readbytes: the buffer from `buff[i]` on, or a write past its end.
pub data Fill : Type 0 where
  got : List ℕ → Link → Fill
  late : List ℕ → Link → Fill
  overrun : Fill

abbrev keep : ℕ → Fill → Fill
keep b (got bytes l) = got (b ∷ bytes) l
keep b (late bytes l) = late (b ∷ bytes) l
keep b overrun = overrun

-- `len - i` bytes are still to be read, and the list is the buffer from `buff[i]` on.
unfoldable pub readbytes : ℕ → List ℕ → Link → Fill
unfolding readbyte
readbytes zero buff l = got buff l
readbytes (suc n) buff l =
    let (r, l') = readbyte l in
    elim r [
      | none ↦ late buff l'
      | some b ↦ elim buff [ [] ↦ overrun | _ ∷ room ↦ keep b (readbytes n room l') ]
    ]

unfoldable pub writebytes : List ℕ → Link → Bool × Link
unfolding writebyte
writebytes [] l = (true, l)
writebytes (b ∷ rest) l =
    let (taken, l') = writebyte b l in
    let more = writebytes rest l' in if taken then more else (false, l')
