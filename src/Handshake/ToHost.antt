-- ===== src/Handshake/ToHost.antt =====
-- A byte from the target to the host: lptcomms_writebyte of pico/lptcomms.c with read_byte of
-- dos/SDPP10/LPTSTORE.C, in any interleaving of their accesses to the wires.
pub mod Safety
pub mod Stream
pub mod Place
pub mod Delivery
pub mod Ending
pub mod Cut
pub mod Prefix
pub mod Progress
use lptstore.Prelude.{
  ℕ, ◌+◌, ◌*◌, ◌/◌, ◌%◌, ◌^◌, ◌≡◌, Bool, true, false, not, Option, none, some, if◌then◌else◌,
}
use lptstore.Handshake.{Board, Pins, bit, readlpt}

-- Where lptcomms_writebyte stands: before the gpio_put of a pin, at a wait, before the gpio_put of a timeout,
-- or at its end with 0 or -1.
pub data Writer : Type 0 where
  high_16 : Writer
  high_17 : Writer
  high_18 : Writer
  high_20 : Writer
  raise : Writer
  wait_up : Writer
  low_16 : Writer
  low_17 : Writer
  low_18 : Writer
  low_20 : Writer
  drop : Writer
  wait_down : Writer
  sent : Writer
  giving_up : Writer
  failed : Writer

-- Where read_byte stands: at a loop, before the IN of a nybble, before an OUT, or at its end.
pub data Reader : Type 0 where
  wait_high : Reader
  take_high : Reader
  ack : Reader
  wait_low : Reader
  take_low : Reader
  release : Reader
  received : Reader

-- An access of lptcomms_writebyte of `b`. `none`: it waits, or is over.
unfoldable pub write_step : Board → ℕ → Writer → Pins → ℕ → Option (Writer × Pins)
write_step w b high_16 p port = some (high_17, record p { pin16 = not (bit b 4) })
write_step w b high_17 p port = some (high_18, record p { pin17 = not (bit b 5) })
write_step w b high_18 p port = some (high_20, record p { pin18 = not (bit b 6) })
write_step w b high_20 p port = some (raise, record p { pin20 = not (bit b 7) })
write_step w b raise p port = some (wait_up, record p { pin19 = true })
write_step w b wait_up p port = if bit (readlpt w port) 4 then some (low_16, p) else none
write_step w b low_16 p port = some (low_17, record p { pin16 = not (bit b 0) })
write_step w b low_17 p port = some (low_18, record p { pin17 = not (bit b 1) })
write_step w b low_18 p port = some (low_20, record p { pin18 = not (bit b 2) })
write_step w b low_20 p port = some (drop, record p { pin20 = not (bit b 3) })
write_step w b drop p port = some (wait_down, record p { pin19 = false })
write_step w b wait_down p port = if bit (readlpt w port) 4 then none else some (sent, p)
write_step w b sent p port = none
write_step w b giving_up p port = some (failed, record p { pin19 = false })
write_step w b failed p port = none

-- waittimeout gives up, where the signal is still not there.
unfoldable pub write_timeout : Board → Writer → Pins → ℕ → Option (Writer × Pins)
write_timeout w wait_up p port = if bit (readlpt w port) 4 then none else some (giving_up, p)
write_timeout w wait_down p port = if bit (readlpt w port) 4 then some (giving_up, p) else none
write_timeout w _ p port = none

-- An access of read_byte: the data port and AH behind it. The low four bits of AH are 0 where it is
-- joined with AL, so OR is a sum.
unfoldable pub read_step : Board → Reader → Pins → ℕ → ℕ → Option (Reader × ℕ × ℕ)
read_step w wait_high p port ah = if bit (w.status p) 7 then some (take_high, port, ah) else none
read_step w take_high p port ah = some (ack, port, w.status p * 2 % 256 / 16 * 16)
read_step w ack p port ah = some (wait_low, 0x10, ah)
read_step w wait_low p port ah = if bit (w.status p) 7 then none else some (take_low, port, ah)
read_step w take_low p port ah = some (release, port, ah + w.status p / 2 / 2 / 2 % 16)
read_step w release p port ah = some (received, 0x00, ah)
read_step w received p port ah = none

pub record Config : Type 0 where
  pub writer : Writer
  pub reader : Reader
  pub pins : Pins
  pub port : ℕ
  pub ah : ℕ

pub data Step (w : Board) (b : ℕ) (c : Config) : Config → Type 0 where
  target :
      (next : Writer) (p : Pins)
      → write_step w b c.writer c.pins c.port ≡ some (next, p)
      → Step w b c (record c { writer = next; pins = p })
  host :
      (next : Reader) (port ah : ℕ)
      → read_step w c.reader c.pins c.port c.ah ≡ some (next, port, ah)
      → Step w b c (record c { reader = next; port = port; ah = ah })
  expire :
      (next : Writer) (p : Pins)
      → write_timeout w c.writer c.pins c.port ≡ some (next, p)
      → Step w b c (record c { writer = next; pins = p })

-- Both sides begin while the lines are idle: pin 19 and the signal of the host are low.
pub record IsStart (c : Config) : Type 0 where
  pub writer_lem : c.writer ≡ high_16
  pub reader_lem : c.reader ≡ wait_high
  pub pin_lem : c.pins.pin19 ≡ false
  pub port_lem : bit c.port 4 ≡ false

pub data Reach (w : Board) (b : ℕ) : Config → Type 0 where
  start : (c : Config) → IsStart c → Reach w b c
  later : {c d : Config} → Reach w b c → Step w b c d → Reach w b d
