-- ===== src/Examples/Wires.antt =====
-- A cable wired as the code takes it to be.
mod ToHost
mod ToTarget
mod Turn
mod Line
mod Again
use lptstore.Prelude.{
  ℕ, zero, suc, ◌+◌, ◌*◌, ◌/◌, ◌%◌, ◌^◌, ◌≡◌, ◌⊎◌, ◌≤◌, ◌<◌, inl, inr, refl, Bool, true, false, not,
  List, [], ◌∷◌, Option, none, some, ◌==◌, ◌||◌, if◌then◌else◌, arith, ◌++◌, replicate,
}
use lptstore.Handshake.{Board, Pins, IsWired, bit, digit, nybble, readlpt, readlpt-port}

abbrev pub board : Board
board = record {
  gpio = λ port pin.
      if pin == 28
      then bit port 0
      else (if pin == 27
          then bit port 1
          else (if pin == 26
              then bit port 2
              else (if pin == 22 then bit port 3 else (if pin == 21 then bit port 4 else false))));
  status = λ p. nybble p * 8 + digit p.pin19 * 128;
}

digit_le : (on : Bool) → digit on ≤ 1
digit_le on = ground arith

board-nybble : (p : Pins) → (nybble p * 8 + digit p.pin19 * 128) / 2 ^ 3 % 16 ≡ nybble p
board-nybble p = omega (
  arith,
  digit_le (not p.pin16),
  digit_le (not p.pin17),
  digit_le (not p.pin18),
  digit_le (not p.pin20),
)

board-signal : (p : Pins) → bit (nybble p * 8 + digit p.pin19 * 128) 7 ≡ p.pin19
board-signal p = ground arith

pub board-IsWired : IsWired board
board-IsWired = record {
  bit_0 = λ port. refl;
  bit_1 = λ port. refl;
  bit_2 = λ port. refl;
  bit_3 = λ port. refl;
  bit_4 = λ port. refl;
  low_29 = λ port. refl;
  status_nybble = board-nybble;
  status_signal = board-signal;
}
