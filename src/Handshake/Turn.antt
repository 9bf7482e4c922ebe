-- ===== src/Handshake/Turn.antt =====
-- The lines change direction: the last wait of write_byte of a request, and read_byte behind it, of
-- dos/SDPP10/LPTSTORE.C, while lptcomms_writebyte of pico/lptcomms.c puts the first byte of the answer.
pub mod Answer
pub mod Lost
use lptstore.Prelude.{ℕ, suc, ◌≡◌, ◌<◌, false, some}
use lptstore.Handshake.{Board, Pins, bit}
use lptstore.Handshake.ToTarget.{Sender, wait_end, finished, send_step}
use lptstore.Handshake.ToHost.{
  Writer, high_16, Reader, wait_high, write_step, write_timeout, read_step,
}

pub record Turn : Type 0 where
  pub sender : Sender
  pub writer : Writer
  pub reader : Reader
  pub pins : Pins
  pub port : ℕ
  pub ah : ℕ

-- An access of the host in write_byte of `b`, and in read_byte once write_byte has returned; or one of
-- lptcomms_writebyte of `a`.
pub data TurnStep (w : Board) (b a : ℕ) (c : Turn) : Turn → Type 0 where
  ask :
      (next : Sender) (port : ℕ)
      → send_step w b c.sender c.pins c.port ≡ some (next, port)
      → TurnStep w b a c (record c { sender = next; port = port })
  hear :
      (next : Reader) (port ah : ℕ)
      → c.sender ≡ finished
      → read_step w c.reader c.pins c.port c.ah ≡ some (next, port, ah)
      → TurnStep w b a c (record c { reader = next; port = port; ah = ah })
  answer :
      (next : Writer) (p : Pins)
      → write_step w a c.writer c.pins c.port ≡ some (next, p)
      → TurnStep w b a c (record c { writer = next; pins = p })
  run_out :
      (next : Writer) (p : Pins)
      → write_timeout w c.writer c.pins c.port ≡ some (next, p)
      → TurnStep w b a c (record c { writer = next; pins = p })

-- lptcomms_readbyte has returned the last byte of the request, and the host has not yet seen pin 19
-- low; lptcomms_writebyte begins.
pub record IsTurn (c : Turn) : Type 0 where
  pub sender_lem : c.sender ≡ wait_end
  pub writer_lem : c.writer ≡ high_16
  pub reader_lem : c.reader ≡ wait_high
  pub pin_lem : c.pins.pin19 ≡ false
  pub port_lem : bit c.port 4 ≡ false

pub data TurnReach (w : Board) (b a : ℕ) : Turn → Type 0 where
  turned : (c : Turn) → IsTurn c → TurnReach w b a c
  onward : {c d : Turn} → TurnReach w b a c → TurnStep w b a c d → TurnReach w b a d

-- `n` steps.
pub data TurnRun (w : Board) (b a : ℕ) (c : Turn) : ℕ → Turn → Type 0 where
  stay : TurnRun w b a c 0 c
  one_more :
      {n : ℕ} {d e : Turn} → TurnRun w b a c n d → TurnStep w b a d e → TurnRun w b a c (suc n) e
