-- ===== src/Examples/Wires/Line.antt =====
-- The request 0xa5 0x3c over the wires, and the same two bytes as its answer.
use lptstore.Prelude.{ℕ, ◌≡◌, refl, true, false, List, [], ◌∷◌, ◌++◌, overlay, arith}
use lptstore.Comms.{Link, got, readbytes, writebytes}
use lptstore.Handshake.Line.{wires_line}
use lptstore.Examples.Wires.{board-IsWired}
use lptstore.Examples.Wires.ToHost
use lptstore.Examples.Wires.ToTarget

abbrev two : List ℕ
two = 0xa5 ∷ 0x3c ∷ []

abbrev line : Link
line = record { incoming = two; hanging = false; room = 2; outgoing = [] }

wires_line_example :
    (readbytes 2 (0 ∷ 0 ∷ 0 ∷ []) line
      ≡ got
          (overlay
            ((ToTarget.walked ToTarget.second).taken
              ++ ((ToTarget.walked ToTarget.second).config.d ∷ []))
            (0 ∷ 0 ∷ 0 ∷ []))
          (record line { incoming = [] }))
    × (writebytes two (record line { incoming = [] }) ≡ (
      true,
      record line {
        incoming = [];
        room = 0;
        outgoing =
            []
            ++ ((ToHost.walked ToHost.second).taken
                ++ ((ToHost.walked ToHost.second).config.ah ∷ []));
      },
    ))
wires_line_example =
    wires_line board-IsWired (omega arith, (omega arith, tt)) (omega arith, (omega arith, tt))
      (ToTarget.walked-StreamReach two ToTarget.second ToTarget.second-StreamReach)
      ToTarget.second-got.0 ToTarget.second-got.1
      (ToHost.walked-StreamReach two ToHost.second ToHost.second-StreamReach) ToHost.second-sent.0
      ToHost.second-sent.1 line (0 ∷ 0 ∷ 0 ∷ []) refl refl (omega arith)
