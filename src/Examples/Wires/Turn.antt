-- ===== src/Examples/Wires/Turn.antt =====
-- The answer 0xa5 to a request whose last byte ends in 5.
use lptstore.Prelude.{◌≡◌, ◌≤◌, ◌⊎◌, refl, true, false, arith}
use lptstore.Handshake.{bit, readlpt}
use lptstore.Handshake.ToTarget.{Sender, wait_end, finished, send_step}
use lptstore.Handshake.ToHost.{
  Config, Step, target, host, expire, wait_high, wait_up, sent, received, giving_up, failed,
  write_step, write_timeout, read_step,
}
use lptstore.Handshake.Turn.{
  Turn, TurnStep, ask, hear, answer, run_out, IsTurn, TurnReach, turned, onward, TurnRun, stay,
  one_more,
}
use lptstore.Handshake.Turn.Answer.{answer_received}
use lptstore.Handshake.Turn.Lost.{early_answer_lost}
use lptstore.Examples.Wires.{board, board-IsWired}
use lptstore.Examples.Wires.ToHost.{walk, walk-closed, idle, turns}

abbrev as_turn : Sender → Config → Turn
as_turn x c = record {
  sender = x;
  writer = c.writer;
  reader = c.reader;
  pins = c.pins;
  port = c.port;
  ah = c.ah;
}

-- The low nybble is still on the lines.
abbrev begun : Config
begun = record idle { port = 5 }

begun-IsTurn : IsTurn (as_turn wait_end begun)
begun-IsTurn = record {
  sender_lem = refl;
  writer_lem = refl;
  reader_lem = refl;
  pin_lem = refl;
  port_lem = refl;
}

-- write_byte has returned: what is left are the steps of the byte to the host.
as_TurnStep :
    {c d : Config}
    → Step board 0xa5 c d
    → TurnStep board 0x35 0xa5 (as_turn finished c) (as_turn finished d)
as_TurnStep (target next p e) = answer next p e
as_TurnStep (host next port ah e) = hear next port ah refl e
as_TurnStep (expire next p e) = run_out next p e

in_time : TurnReach board 0x35 0xa5 (as_turn finished begun)
unfolding send_step
in_time = onward (turned (as_turn wait_end begun) begun-IsTurn) (ask finished 5 refl)

answered : Turn
answered = as_turn finished (walk board 0xa5 turns begun)

answered-TurnReach : TurnReach board 0x35 0xa5 answered
unfolding answered
answered-TurnReach =
    walk-closed board 0xa5 (λ c. TurnReach board 0x35 0xa5 (as_turn finished c))
      (λ c d r st. onward r (as_TurnStep st)) turns begun in_time

answered-sent : answered.writer ≡ sent
unfolding answered walk write_step read_step readlpt
answered-sent = refl

answer_received_example :
    (answered.sender ≡ finished)
    × (answered.reader ≡ received)
    × (answered.ah ≡ 0xa5)
    × (answered.pins.pin19 ≡ false)
    × (bit answered.port 4 ≡ false)
answer_received_example =
    answer_received board-IsWired 0x35 0xa5 (omega arith) answered-TurnReach answered-sent

-- The target puts its five pins before the host looks.
early : Turn
early = record (as_turn wait_end begun) {
  writer = wait_up;
  pins = record { pin16 = true; pin17 = false; pin18 = true; pin19 = true; pin20 = false };
}

early-TurnReach : TurnReach board 0x35 0xa5 early
unfolding early write_step
early-TurnReach =
    onward
      (onward
        (onward
          (onward (onward (turned (as_turn wait_end begun) begun-IsTurn) (answer _ _ refl))
            (answer _ _ refl))
          (answer _ _ refl))
        (answer _ _ refl))
      (answer _ _ refl)

lost : Turn
lost = record early {
  sender = finished;
  writer = failed;
  pins = record { pin16 = true; pin17 = false; pin18 = true; pin19 = false; pin20 = false };
}

-- The target times out and lowers pin 19, and then the host goes on.
lost-TurnRun : TurnRun board 0x35 0xa5 early 3 lost
unfolding early lost write_step write_timeout send_step readlpt
lost-TurnRun =
    one_more (one_more (one_more stay (run_out giving_up _ refl)) (answer failed _ refl))
      (ask finished 5 refl)

early-waits : (early.sender ≡ wait_end) × (early.writer ≡ wait_up)
unfolding early
early-waits = (refl, refl)

early_answer_lost_example :
    (lost.reader ≡ wait_high)
    × (3 ≤ 3)
    × (((lost.writer ≡ failed)
          × (lost.sender ≡ finished)
          × ((e : Turn) → TurnStep board 0x35 0xa5 lost e → ⊥))
        ⊎ ((e : Turn) × TurnStep board 0x35 0xa5 lost e))
early_answer_lost_example =
    early_answer_lost board-IsWired 0x35 0xa5 (omega arith) early-TurnReach early-waits.0
      early-waits.1 lost-TurnRun
