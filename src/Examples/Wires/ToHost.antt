-- ===== src/Examples/Wires/ToHost.antt =====
-- The bytes 0xa5 and 0x3c go to the host.
use lptstore.Prelude.{
  ℕ, ◌≡◌, ◌⊎◌, ◌<◌, refl, Bool, true, false, List, [], ◌∷◌, ◌++◌, Option, none, some, arith,
  replicate,
}
use lptstore.Handshake.{IsFront, Board, readlpt}
use lptstore.Handshake.ToHost.{
  Config, Step, giving_up, expire, write_timeout, IsStart, target, host, high_16, wait_high, sent,
  failed, write_step, read_step,
}
use lptstore.Handshake.ToHost.Stream.{
  Stream, StreamStep, access, next_write, next_read, IsOpening, StreamReach, opening, further,
}
use lptstore.Handshake.ToHost.Delivery.{IsDelivered, stream_received}
use lptstore.Handshake.ToHost.Prefix.{IsCut, stream-IsFront}
use lptstore.Handshake.ToHost.Ending.{work, Moved, stream_progress}
use lptstore.Examples.Wires.{board, board-IsWired}

-- The accesses of the two sides in the order of `turns`, of the target where it is `true`.
unfoldable pub walk : Board → ℕ → List Bool → Config → Config
walk w b [] c = c
walk w b (true ∷ turns) c = elim (write_step w b c.writer c.pins c.port) [
  | none ↦ walk w b turns c
  | some (next, p) ↦ walk w b turns (record c { writer = next; pins = p })
]
walk w b (false ∷ turns) c = elim (read_step w c.reader c.pins c.port c.ah) [
  | none ↦ walk w b turns c
  | some (next, port, ah) ↦ walk w b turns (record c { reader = next; port = port; ah = ah })
]

-- What every step keeps holds behind the walk.
pub walk-closed :
    (w : Board) (b : ℕ) (P : Config → Type 0)
    → ((c d : Config) → P c → Step w b c d → P d)
    → (turns : List Bool) (c : Config) → P c
    → P (walk w b turns c)
unfolding walk
walk-closed w b P step [] c holds = holds
walk-closed w b P step (true ∷ turns) c holds =
    go (λ d r. walk-closed w b P step turns d r) (write_step w b c.writer c.pins c.port) refl
  where
    go :
        ((d : Config) → P d → P (walk w b turns d))
        → (o : Option _) → write_step w b c.writer c.pins c.port ≡ o
        → P (walk w b (true ∷ turns) c)
    go rest none e = rw (walk, e) (rest c holds)
    go rest (some (next, p)) e = rw (walk, e) (rest _ (step _ _ holds (target next p e)))
walk-closed w b P step (false ∷ turns) c holds =
    go (λ d r. walk-closed w b P step turns d r) (read_step w c.reader c.pins c.port c.ah) refl
  where
    go :
        ((d : Config) → P d → P (walk w b turns d))
        → (o : Option _) → read_step w c.reader c.pins c.port c.ah ≡ o
        → P (walk w b (false ∷ turns) c)
    go rest none e = rw (walk, e) (rest c holds)
    go rest (some (next, port, ah)) e = rw (walk, e) (rest _ (step _ _ holds (host next port ah e)))

abbrev pub idle : Config
idle = record {
  writer = high_16;
  reader = wait_high;
  pins = record { pin16 = true; pin17 = true; pin18 = true; pin19 = false; pin20 = true };
  port = 0;
  ah = 0;
}

idle-IsStart : IsStart idle
idle-IsStart = record { writer_lem = refl; reader_lem = refl; pin_lem = refl; port_lem = refl }

-- The target puts the high nybble and the signal, the host takes it, and so on.
abbrev pub turns : List Bool
turns =
    replicate 6 true
    ++ (replicate 3 false ++ (replicate 6 true ++ (replicate 3 false ++ (true ∷ []))))

-- lptcomms_writebytes of 0xa5 and 0x3c begins.
abbrev first : Stream
first = record { config = idle; byte = 0xa5; left = 0x3c ∷ []; taken = []; after = 1 }

first-IsOpening : IsOpening (0xa5 ∷ 0x3c ∷ []) first
first-IsOpening = record {
  config_lem = idle-IsStart;
  bytes_lem = refl;
  taken_lem = refl;
  after_lem = refl;
}

pub walked : Stream → Stream
walked s = record s { config = walk board s.byte turns s.config }

pub walked-StreamReach :
    (bytes : List ℕ) (s : Stream) → StreamReach board bytes s → StreamReach board bytes (walked s)
unfolding walked
walked-StreamReach bytes s reach =
    walk-closed board s.byte (λ c. StreamReach board bytes (record s { config = c }))
      (λ c d r st. further r (access d st)) turns s.config reach

-- The second call of both loops.
pub second : Stream
second = record {
  config = record ((walked first).config) { writer = high_16; reader = wait_high };
  byte = 0x3c;
  left = [];
  taken = (walked first).config.ah ∷ [];
  after = 0;
}

pub second-StreamReach : StreamReach board (0xa5 ∷ 0x3c ∷ []) second
unfolding second walked walk write_step read_step readlpt
second-StreamReach =
    further
      (further (walked-StreamReach _ first (opening first first-IsOpening))
        (next_write 0x3c [] refl refl))
      (next_read 0 refl refl)

pub second-sent : ((walked second).config.writer ≡ sent) × ((walked second).left ≡ [])
unfolding second walked walk write_step read_step readlpt
second-sent = (refl, refl)

stream_received_example : IsDelivered (0xa5 ∷ 0x3c ∷ []) (walked second)
stream_received_example =
    stream_received board-IsWired (0xa5 ∷ 0x3c ∷ []) (omega arith, (omega arith, tt))
      (walked-StreamReach (0xa5 ∷ 0x3c ∷ []) second second-StreamReach) second-sent.0 second-sent.1

stream_progress_example :
    ((t : Stream) → StreamStep board second t → work t < work second)
    × (IsDelivered (0xa5 ∷ 0x3c ∷ []) second ⊎ (second.config.writer ≡ failed) ⊎ Moved board second)
stream_progress_example =
    stream_progress board-IsWired (0xa5 ∷ 0x3c ∷ []) (omega arith, (omega arith, tt))
      second-StreamReach

-- The target signals the high nybble of 0x3c, and gives up before the host answers.
cut_off : Stream
unfolding second walked walk write_step read_step readlpt
cut_off =
    let c = walk board 0x3c (replicate 5 true) second.config in
    record second { config = record c { writer = giving_up } }

cut_off-StreamReach : StreamReach board (0xa5 ∷ 0x3c ∷ []) cut_off
unfolding cut_off second walked walk write_step write_timeout read_step readlpt
cut_off-StreamReach =
    further
      (walk-closed board 0x3c
        (λ c. StreamReach board (0xa5 ∷ 0x3c ∷ []) (record second { config = c }))
        (λ c d r st. further r (access d st)) (replicate 5 true) second.config second-StreamReach)
      (access _ (expire giving_up _ refl))

stream-IsFront_example : IsFront (0xa5 ∷ 0x3c ∷ []) cut_off.taken ⊎ IsCut (0xa5 ∷ 0x3c ∷ []) cut_off
stream-IsFront_example =
    stream-IsFront board-IsWired (0xa5 ∷ 0x3c ∷ []) (omega arith, (omega arith, tt))
      cut_off-StreamReach
