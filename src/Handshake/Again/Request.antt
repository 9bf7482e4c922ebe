-- ===== src/Handshake/Again/Request.antt =====
-- A request that begins while the target still waits for the end of its answer is read all the same.
use lptstore.Prelude.{ℕ, ◌+◌, ◌≡◌, ◌<◌, ◌⊎◌, Bool, true, false}
use lptstore.Handshake.{Board, IsWired}
use lptstore.Handshake.ToTarget.{finished, got, failed}
use lptstore.Handshake.ToTarget.Ending.{to_send, to_take}
use lptstore.Handshake.ToHost
use lptstore.Handshake.ToHost.Ending.{to_write}
use lptstore.Handshake.Again.{Again, AgainStep}

abbrev calls : Bool → ℕ
calls true = 0
calls false = 1

-- The steps that are left, at most.
abbrev pub work : Again → ℕ
work c = to_write c.writer + (calls c.called + (to_send c.sender + to_take c.receiver))

module _ {w : Board} (wired : IsWired w) (b a : ℕ) (byte : b < 256) where
  -- The byte is read, lptcomms_readbyte has timed out, or there is a next step.
  abbrev GoesOn : Again → Type 0
  GoesOn c =
      ((c.sender ≡ finished) × (c.receiver ≡ got) × (c.d ≡ b))
      ⊎ (c.receiver ≡ failed)
      ⊎ ((e : Again) × AgainStep w b a c e)
