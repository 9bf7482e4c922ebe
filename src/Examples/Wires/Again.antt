-- ===== src/Examples/Wires/Again.antt =====
-- The request 0x03 begins before the target has seen the end of its answer 0xa5.
use lptstore.Prelude.{true, false}
use lptstore.Handshake.ToTarget.{out_high, wait_ack, wait_flag, failed}
use lptstore.Handshake.ToHost.{wait_down}
use lptstore.Handshake.ToHost
use lptstore.Handshake.Again.{Again}

abbrev answered : Again
answered = record {
  writer = wait_down;
  called = false;
  sender = out_high;
  receiver = wait_flag;
  pins = record { pin16 = true; pin17 = false; pin18 = true; pin19 = false; pin20 = false };
  port = 0;
  d = 0;
}

-- The host signals, the target misses the end of its answer and times out, and then reads.
overlapped : Again
overlapped = record answered {
  writer = ToHost.failed;
  called = true;
  sender = wait_ack;
  port = 0x10;
}
