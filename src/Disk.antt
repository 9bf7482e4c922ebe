-- ===== src/Disk.antt =====
-- The interface of pico/disk.h, which pico/lptprotocol.c calls and which pico/diskfake.c and
-- pico/msc_app.c implement. An `int` is its 32-bit pattern (0xffff_ffff for -1).
use lptstore.Prelude.{ℕ, List}

pub record Disk : Type 1 where
  pub State : Type 0
  pub read_sector : ℕ → ℕ → List ℕ → State → ℕ × List ℕ × State
  pub write_sector : ℕ → ℕ → List ℕ → State → ℕ × State
  pub get_blocks : ℕ → State → ℕ
  pub get_drives : State → ℕ
