-- ===== src/Handshake.antt =====
-- The wires of the parallel port, and what both sides read from them: lptcomms_readlpt of
-- pico/lptcomms.c, and the status port of the host.
pub mod ToHost
pub mod ToTarget
pub mod Turn
pub mod Line
pub mod Again
use lptstore.Prelude.{
  ℕ, zero, suc, ◌+◌, ◌*◌, ◌/◌, ◌%◌, ◌^◌, ◌≡◌, ◌<◌, refl, ap, ◌∙◌, Bool, true, false, not, ◌||◌,
  List, ◌++◌, ◌==◌, if◌then◌else◌, arith,
}

-- The output pins of the target. Pin 19 is the signal, the others carry a nybble, inverted.
pub record Pins : Type 0 where
  pub pin16 : Bool
  pub pin17 : Bool
  pub pin18 : Bool
  pub pin19 : Bool
  pub pin20 : Bool

-- `b & (1 << i)`
abbrev pub bit : ℕ → ℕ → Bool
bit b i = b / 2 ^ i % 2 == 1

abbrev pub digit : Bool → ℕ
digit on = if on then 1 else 0

-- The cable and the board: the level of an input pin of the target while the host's data port holds a
-- byte, and the byte at the host's status port while the target's pins are set.
pub record Board : Type 0 where
  pub gpio : ℕ → ℕ → Bool
  pub status : Pins → ℕ

-- lptcomms_readlpt: `(dw >> 8)` has pin 28 in bit 0 and pin 29 in bit 1.
unfoldable pub readlpt : Board → ℕ → ℕ
readlpt w port =
    digit (w.gpio port 28)
    + 2 * digit (w.gpio port 29 || w.gpio port 27)
    + 4 * digit (w.gpio port 26)
    + 8 * digit (w.gpio port 22)
    + 16 * digit (w.gpio port 21)

-- lptcomms_hasbyte
unfoldable pub hasbyte : Board → ℕ → Bool
hasbyte w port = bit (readlpt w port) 4

-- What the pins 16, 17, 18 and 20 stand for.
abbrev pub nybble : Pins → ℕ
nybble p =
    digit (not p.pin16)
    + 2 * digit (not p.pin17)
    + 4 * digit (not p.pin18)
    + 8 * digit (not p.pin20)

-- How the code takes the cable to be wired: the data bits 0 to 4 lead to the pins 28, 27, 26, 22 and
-- 21, pin 29 is low, the status bits 3 to 6 are the nybble, and status bit 7 is pin 19.
pub record IsWired (w : Board) : Type 0 where
  pub bit_0 : (port : ℕ) → w.gpio port 28 ≡ bit port 0
  pub bit_1 : (port : ℕ) → w.gpio port 27 ≡ bit port 1
  pub bit_2 : (port : ℕ) → w.gpio port 26 ≡ bit port 2
  pub bit_3 : (port : ℕ) → w.gpio port 22 ≡ bit port 3
  pub bit_4 : (port : ℕ) → w.gpio port 21 ≡ bit port 4
  pub low_29 : (port : ℕ) → w.gpio port 29 ≡ false
  pub status_nybble : (p : Pins) → w.status p / 2 ^ 3 % 16 ≡ nybble p
  pub status_signal : (p : Pins) → bit (w.status p) 7 ≡ p.pin19

-- The pins of the first `n` bits of the nybble that begins at bit `low` of `b` are set.
abbrev pub Put : ℕ → ℕ → ℕ → Pins → Type 0
Put zero low b p = Unit
Put (suc zero) low b p = p.pin16 ≡ not (bit b low)
Put (suc (suc zero)) low b p = (p.pin16 ≡ not (bit b low)) × (p.pin17 ≡ not (bit b (low + 1)))
Put (suc (suc (suc zero))) low b p =
    (p.pin16 ≡ not (bit b low))
    × (p.pin17 ≡ not (bit b (low + 1)))
    × (p.pin18 ≡ not (bit b (low + 2)))
Put (suc (suc (suc (suc n)))) low b p =
    (p.pin16 ≡ not (bit b low))
    × (p.pin17 ≡ not (bit b (low + 1)))
    × (p.pin18 ≡ not (bit b (low + 2)))
    × (p.pin20 ≡ not (bit b (low + 3)))

digit-bit : (b i : ℕ) → digit (not (not (bit b i))) ≡ b / 2 ^ i % 2
digit-bit b i = ground arith

pub nybble-high : (b : ℕ) (p : Pins) → Put 4 4 b p → nybble p ≡ b / 2 ^ 4 % 16
nybble-high b p (e0, e1, e2, e3) =
    rw (e0, e1, e2, e3) (omega (arith, digit-bit b 4, digit-bit b 5, digit-bit b 6, digit-bit b 7))

pub nybble-low : (b : ℕ) (p : Pins) → Put 4 0 b p → nybble p ≡ b % 16
nybble-low b p (e0, e1, e2, e3) =
    rw (e0, e1, e2, e3) (omega (arith, digit-bit b 0, digit-bit b 1, digit-bit b 2, digit-bit b 3))

digit-test : (b i : ℕ) → digit (bit b i) ≡ b / 2 ^ i % 2
digit-test b i = ground arith

-- With the cable wired as the code takes it to be, lptcomms_readlpt is the low five bits of the data
-- port.
pub readlpt-port : {w : Board} → IsWired w → (port : ℕ) → readlpt w port ≡ port % 2 ^ 5
unfolding readlpt
readlpt-port wired port =
    rw
      (
        wired.bit_0 port,
        wired.low_29 port,
        wired.bit_1 port,
        wired.bit_2 port,
        wired.bit_3 port,
        wired.bit_4 port,
      )
      (omega (
        arith,
        digit-test port 0,
        digit-test port 1,
        digit-test port 2,
        digit-test port 3,
        digit-test port 4,
      ))

-- What has been taken is a front of the bytes.
abbrev pub IsFront : List ℕ → List ℕ → Type 0
IsFront bytes taken = (rest : List ℕ) × (bytes ≡ taken ++ rest)
