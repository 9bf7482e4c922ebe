-- ===== src/Examples/Wires/ToTarget.antt =====
-- The bytes 0xa5 and 0x3c go to the target.
use lptstore.Prelude.{
  ℕ, ◌≡◌, ◌<◌, ◌⊎◌, ◌++◌, refl, Bool, true, false, List, [], ◌∷◌, Option, none, some, arith,
  replicate,
}
use lptstore.Handshake.{IsFront, Board, readlpt}
use lptstore.Handshake.ToTarget.{
  Config, Step, IsStart, host, target, out_high, wait_flag, got, failed, send_step, receive_step,
}
use lptstore.Handshake.ToTarget.Stream.{
  Stream, StreamStep, access, next_send, next_receive, IsOpening, StreamReach, opening, further,
}
use lptstore.Handshake.ToTarget.Delivery.{IsDelivered, stream_read}
use lptstore.Handshake.ToTarget.Ending.{work, Moved, stream_ends}
use lptstore.Examples.Wires.{board, board-IsWired}

-- The accesses of the two sides in the order of `turns`, of the host where it is `true`.
unfoldable walk : Board → ℕ → List Bool → Config → Config
walk w b [] c = c
walk w b (true ∷ turns) c = elim (send_step w b c.sender c.pins c.port) [
  | none ↦ walk w b turns c
  | some (next, port) ↦ walk w b turns (record c { sender = next; port = port })
]
walk w b (false ∷ turns) c = elim (receive_step w c.receiver c.pins c.port c.d) [
  | none ↦ walk w b turns c
  | some (next, p, d) ↦ walk w b turns (record c { receiver = next; pins = p; d = d })
]

-- What every step keeps holds behind the walk.
walk-closed :
    (w : Board) (b : ℕ) (P : Config → Type 0)
    → ((c t : Config) → P c → Step w b c t → P t)
    → (turns : List Bool) (c : Config) → P c
    → P (walk w b turns c)
unfolding walk
walk-closed w b P step [] c holds = holds
walk-closed w b P step (true ∷ turns) c holds =
    go (λ d r. walk-closed w b P step turns d r) (send_step w b c.sender c.pins c.port) refl
  where
    go :
        ((d : Config) → P d → P (walk w b turns d))
        → (o : Option _) → send_step w b c.sender c.pins c.port ≡ o
        → P (walk w b (true ∷ turns) c)
    go rest none e = rw (walk, e) (rest c holds)
    go rest (some (next, port)) e = rw (walk, e) (rest _ (step _ _ holds (host next port e)))
walk-closed w b P step (false ∷ turns) c holds =
    go (λ d r. walk-closed w b P step turns d r) (receive_step w c.receiver c.pins c.port c.d) refl
  where
    go :
        ((d : Config) → P d → P (walk w b turns d))
        → (o : Option _) → receive_step w c.receiver c.pins c.port c.d ≡ o
        → P (walk w b (false ∷ turns) c)
    go rest none e = rw (walk, e) (rest c holds)
    go rest (some (next, p, d)) e = rw (walk, e) (rest _ (step _ _ holds (target next p d e)))

abbrev idle : Config
idle = record {
  sender = out_high;
  receiver = wait_flag;
  pins = record { pin16 = true; pin17 = true; pin18 = true; pin19 = false; pin20 = true };
  port = 0;
  d = 0;
}

idle-IsStart : IsStart idle
idle-IsStart = record { sender_lem = refl; receiver_lem = refl; pin_lem = refl; port_lem = refl }

-- The host puts the high nybble and the signal, the target takes it, and so on.
abbrev turns : List Bool
turns = true ∷ false ∷ false ∷ false ∷ true ∷ true ∷ replicate 3 false ++ (true ∷ [])

-- write_byte of 0xa5, then of 0x3c.
abbrev first : Stream
first = record { config = idle; byte = 0xa5; left = 0x3c ∷ []; taken = []; after = 1 }

first-IsOpening : IsOpening (0xa5 ∷ 0x3c ∷ []) first
first-IsOpening = record {
  config_lem = idle-IsStart;
  bytes_lem = refl;
  taken_lem = refl;
  after_lem = refl;
}

pub walked : Stream → Stream
walked s = record s { config = walk board s.byte turns s.config }

pub walked-StreamReach :
    (bytes : List ℕ) (s : Stream) → StreamReach board bytes s → StreamReach board bytes (walked s)
unfolding walked
walked-StreamReach bytes s reach =
    walk-closed board s.byte (λ c. StreamReach board bytes (record s { config = c }))
      (λ c d r st. further r (access d st)) turns s.config reach

-- The second call of both loops.
pub second : Stream
second = record {
  config = record ((walked first).config) { sender = out_high; receiver = wait_flag };
  byte = 0x3c;
  left = [];
  taken = (walked first).config.d ∷ [];
  after = 0;
}

pub second-StreamReach : StreamReach board (0xa5 ∷ 0x3c ∷ []) second
unfolding second walked walk send_step receive_step readlpt
second-StreamReach =
    further
      (further (walked-StreamReach _ first (opening first first-IsOpening))
        (next_send 0x3c [] refl refl))
      (next_receive 0 refl refl)

pub second-got : ((walked second).config.receiver ≡ got) × ((walked second).after ≡ 0)
unfolding second walked walk send_step receive_step readlpt
second-got = (refl, refl)

stream_read_example : IsDelivered (0xa5 ∷ 0x3c ∷ []) (walked second)
stream_read_example =
    stream_read board-IsWired (0xa5 ∷ 0x3c ∷ []) (omega arith, (omega arith, tt))
      (walked-StreamReach (0xa5 ∷ 0x3c ∷ []) second second-StreamReach) second-got.0 second-got.1

stream_ends_example :
    IsFront (0xa5 ∷ 0x3c ∷ []) second.taken
    × ((t : Stream) → StreamStep board second t → work t < work second)
    × (((second.config.receiver ≡ got) × (second.after ≡ 0) × IsDelivered (0xa5 ∷ 0x3c ∷ []) second)
        ⊎ (second.config.receiver ≡ failed)
        ⊎ Moved board second)
stream_ends_example =
    stream_ends board-IsWired (0xa5 ∷ 0x3c ∷ []) (omega arith, (omega arith, tt)) second-StreamReach
