-- ===== src/Session.antt =====
-- The driver and the target joined: LPTRead and LPTWrite (dos/SDPP10/LPTSTORE.C) with
-- lptprotocol_task (pico/lptprotocol.c) as the far end of the cable.
pub mod Laws
pub mod Read
pub mod Write
pub mod Store
pub mod ReadBack
pub mod Refused
use lptstore.Prelude.{ℕ, Bool, true, false, List, [], ◌∷◌, ◌++◌, Option, none, some}
use lptstore.Comms.{Link}
use lptstore.Disk.{Disk}
use lptstore.Protocol.{Pico, Outcome, done, fault, lptprotocol_task}
use lptstore.Host.{Peer}

-- The host takes every byte of an answer: no answer has more.
abbrev pub answer_room : ℕ
answer_room = 1024

abbrev pub link_of : List ℕ → Link
link_of inbox = record { incoming = inbox; hanging = false; room = answer_room; outgoing = [] }

-- Bytes on their way to the target, and from it.
pub record Cable (D : Disk) : Type 0 where
  pub pico : Pico D
  pub inbox : List ℕ
  pub outbox : List ℕ

module _ (D : Disk) where
  unfoldable pub deliver : List ℕ → Pico D → List ℕ → Option (ℕ × Cable D)
  deliver [] p inbox = none
  deliver (b ∷ rest) p inbox = some (b, record { pico = p; inbox = inbox; outbox = rest })

  -- The target runs its task when the host waits for a byte.
  unfoldable pub serve : Cable D → Option (ℕ × Cable D)
  serve s = elim (lptprotocol_task D s.pico (link_of s.inbox)) [
    | done p l ↦ deliver l.outgoing p l.incoming
    | fault ↦ none
  ]

  unfoldable pub receive : List ℕ → Cable D → Option (ℕ × Cable D)
  receive [] s = serve s
  receive (b ∷ rest) s = some (b, record s { outbox = rest })

  abbrev pub cable_peer : Peer
  cable_peer = record {
    State = Cable D;
    put = λ b s. some (record s { inbox = s.inbox ++ (b ∷ []) });
    get = λ s. receive s.outbox s;
  }
