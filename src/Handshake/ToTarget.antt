-- ===== src/Handshake/ToTarget.antt =====
-- A byte from the host to the target: write_byte of dos/SDPP10/LPTSTORE.C with lptcomms_readbyte of
-- pico/lptcomms.c, in any interleaving of their accesses to the wires.
pub mod Safety
pub mod Progress
pub mod Stream
pub mod Place
pub mod Delivery
pub mod Ending
use lptstore.Prelude.{
  ℕ, ◌+◌, ◌*◌, ◌/◌, ◌%◌, ◌^◌, ◌≡◌, Bool, true, false, Option, none, some, if◌then◌else◌,
}
use lptstore.Handshake.{Board, Pins, bit, readlpt}

-- Where write_byte stands: before an OUT, at a loop, or at its end.
pub data Sender : Type 0 where
  out_high : Sender
  wait_ack : Sender
  out_low : Sender
  wait_end : Sender
  finished : Sender

-- Where lptcomms_readbyte stands: at a wait, before it reads a nybble, before a gpio_put, that of a
-- timeout included, or at its end with a byte or with -1.
pub data Receiver : Type 0 where
  wait_flag : Receiver
  take_high : Receiver
  raise : Receiver
  wait_clear : Receiver
  take_low : Receiver
  lower : Receiver
  got : Receiver
  giving_up : Receiver
  failed : Receiver

-- An access of write_byte of `b`: the data port behind it.
unfoldable pub send_step : Board → ℕ → Sender → Pins → ℕ → Option (Sender × ℕ)
send_step w b out_high p port = some (wait_ack, b / 2 / 2 / 2 / 2 % 16 + 0x10)
send_step w b wait_ack p port = if bit (w.status p) 7 then some (out_low, port) else none
send_step w b out_low p port = some (wait_end, b % 16)
send_step w b wait_end p port = if bit (w.status p) 7 then none else some (finished, port)
send_step w b finished p port = none

-- An access of lptcomms_readbyte: the pins and `d` behind it. The low four bits of `d` are 0 where the
-- second nybble is joined with it.
unfoldable pub receive_step : Board → Receiver → Pins → ℕ → ℕ → Option (Receiver × Pins × ℕ)
receive_step w wait_flag p port d = if bit (readlpt w port) 4 then some (take_high, p, d) else none
receive_step w take_high p port d = some (raise, p, readlpt w port % 16 * 2 ^ 4)
receive_step w raise p port d = some (wait_clear, record p { pin19 = true }, d)
receive_step w wait_clear p port d = if bit (readlpt w port) 4 then none else some (take_low, p, d)
receive_step w take_low p port d = some (lower, p, d + readlpt w port % 16)
receive_step w lower p port d = some (got, record p { pin19 = false }, d)
receive_step w got p port d = none
receive_step w giving_up p port d = some (failed, record p { pin19 = false }, d)
receive_step w failed p port d = none

-- waittimeout gives up; at the second wait pin 19 stays as it is.
unfoldable pub receive_timeout : Board → Receiver → Pins → ℕ → Option (Receiver × Pins)
receive_timeout w wait_flag p port = if bit (readlpt w port) 4 then none else some (giving_up, p)
receive_timeout w wait_clear p port = if bit (readlpt w port) 4 then some (failed, p) else none
receive_timeout w _ p port = none

pub record Config : Type 0 where
  pub sender : Sender
  pub receiver : Receiver
  pub pins : Pins
  pub port : ℕ
  pub d : ℕ

pub data Step (w : Board) (b : ℕ) (c : Config) : Config → Type 0 where
  host :
      (next : Sender) (port : ℕ)
      → send_step w b c.sender c.pins c.port ≡ some (next, port)
      → Step w b c (record c { sender = next; port = port })
  target :
      (next : Receiver) (p : Pins) (d : ℕ)
      → receive_step w c.receiver c.pins c.port c.d ≡ some (next, p, d)
      → Step w b c (record c { receiver = next; pins = p; d = d })
  expire :
      (next : Receiver) (p : Pins)
      → receive_timeout w c.receiver c.pins c.port ≡ some (next, p)
      → Step w b c (record c { receiver = next; pins = p })

-- Both sides begin while the lines are idle.
pub record IsStart (c : Config) : Type 0 where
  pub sender_lem : c.sender ≡ out_high
  pub receiver_lem : c.receiver ≡ wait_flag
  pub pin_lem : c.pins.pin19 ≡ false
  pub port_lem : bit c.port 4 ≡ false

pub data Reach (w : Board) (b : ℕ) : Config → Type 0 where
  start : (c : Config) → IsStart c → Reach w b c
  later : {c d : Config} → Reach w b c → Step w b c d → Reach w b d
