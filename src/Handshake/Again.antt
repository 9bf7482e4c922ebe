-- ===== src/Handshake/Again.antt =====
-- The next request begins: write_byte of dos/SDPP10/LPTSTORE.C, while lptcomms_writebyte of
-- pico/lptcomms.c may still be in the last wait of an answer, and lptprotocol_task of
-- pico/lptprotocol.c behind it.
pub mod Overlap
pub mod Request
use lptstore.Prelude.{ℕ, ◌≡◌, ◌⊎◌, Bool, true, false, some}
use lptstore.Handshake.{Board, Pins, bit, readlpt}
use lptstore.Handshake.ToTarget.{
  Sender, out_high, Receiver, wait_flag, send_step, receive_step, receive_timeout,
}
use lptstore.Handshake.ToHost.{Writer, wait_down, sent, failed, write_step, write_timeout}

-- `called`: lptprotocol_task has seen a byte and called lptcomms_readbyte.
pub record Again : Type 0 where
  pub writer : Writer
  pub called : Bool
  pub sender : Sender
  pub receiver : Receiver
  pub pins : Pins
  pub port : ℕ
  pub d : ℕ

-- An access of write_byte of `b`, of lptcomms_writebyte of `a`, or of lptcomms_readbyte, their timeouts,
-- or lptcomms_hasbyte, which is asked once lptcomms_writebyte has returned.
pub data AgainStep (w : Board) (b a : ℕ) (c : Again) : Again → Type 0 where
  put :
      (next : Sender) (port : ℕ)
      → send_step w b c.sender c.pins c.port ≡ some (next, port)
      → AgainStep w b a c (record c { sender = next; port = port })
  end_answer :
      (next : Writer) (p : Pins)
      → write_step w a c.writer c.pins c.port ≡ some (next, p)
      → AgainStep w b a c (record c { writer = next; pins = p })
  run_out :
      (next : Writer) (p : Pins)
      → write_timeout w c.writer c.pins c.port ≡ some (next, p)
      → AgainStep w b a c (record c { writer = next; pins = p })
  call :
      c.called ≡ false
      → (c.writer ≡ sent) ⊎ (c.writer ≡ failed)
      → bit (readlpt w c.port) 4 ≡ true
      → AgainStep w b a c (record c { called = true })
  take :
      (next : Receiver) (p : Pins) (d : ℕ)
      → c.called ≡ true
      → receive_step w c.receiver c.pins c.port c.d ≡ some (next, p, d)
      → AgainStep w b a c (record c { receiver = next; pins = p; d = d })
  expire :
      (next : Receiver) (p : Pins)
      → c.called ≡ true
      → receive_timeout w c.receiver c.pins c.port ≡ some (next, p)
      → AgainStep w b a c (record c { receiver = next; pins = p })

-- read_byte of the answer has returned, and the target has not yet seen that.
pub record IsAgain (c : Again) : Type 0 where
  pub writer_lem : c.writer ≡ wait_down
  pub called_lem : c.called ≡ false
  pub sender_lem : c.sender ≡ out_high
  pub receiver_lem : c.receiver ≡ wait_flag
  pub pin_lem : c.pins.pin19 ≡ false
  pub port_lem : bit c.port 4 ≡ false

pub data AgainReach (w : Board) (b a : ℕ) : Again → Type 0 where
  begun : (c : Again) → IsAgain c → AgainReach w b a c
  onward : {c e : Again} → AgainReach w b a c → AgainStep w b a c e → AgainReach w b a e
