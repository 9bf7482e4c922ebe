-- ===== src/Handshake/ToHost/Stream.antt =====
-- Many bytes to the host: lptcomms_writebytes of pico/lptcomms.c with the calls of read_byte in LPTRead of
-- dos/SDPP10/LPTSTORE.C.
use lptstore.Prelude.{ℕ, suc, ◌≡◌, List, [], ◌∷◌, ◌++◌, length}
use lptstore.Handshake.{Board}
use lptstore.Handshake.ToHost.{Config, Step, IsStart, high_16, sent, wait_high, received}

-- The two calls that run, the byte that lptcomms_writebyte was called with and those behind it in the
-- buffer, what read_byte has returned, and how often it is called after this call.
pub record Stream : Type 0 where
  pub config : Config
  pub byte : ℕ
  pub left : List ℕ
  pub taken : List ℕ
  pub after : ℕ

-- An access of the wires, or the next call of either loop: `d[i]` is the next byte where
-- lptcomms_writebyte has not failed, and read_byte is called again for the next byte of the memory.
pub data StreamStep (w : Board) (s : Stream) : Stream → Type 0 where
  access : (d : Config) → Step w s.byte s.config d → StreamStep w s (record s { config = d })
  next_write :
      (b : ℕ) (rest : List ℕ)
      → s.config.writer ≡ sent
      → s.left ≡ b ∷ rest
      → StreamStep w s
          (record s { config = record (s.config) { writer = high_16 }; byte = b; left = rest })
  next_read :
      (n : ℕ)
      → s.config.reader ≡ received
      → s.after ≡ suc n
      → StreamStep w s (record s {
        config = record (s.config) { reader = wait_high };
        taken = s.taken ++ (s.config.ah ∷ []);
        after = n;
      })

-- The host reads as many bytes as the target writes, and the lines are idle.
pub record IsOpening (bytes : List ℕ) (s : Stream) : Type 0 where
  pub config_lem : IsStart s.config
  pub bytes_lem : bytes ≡ s.byte ∷ s.left
  pub taken_lem : s.taken ≡ []
  pub after_lem : suc s.after ≡ length bytes

pub data StreamReach (w : Board) (bytes : List ℕ) : Stream → Type 0 where
  opening : (s : Stream) → IsOpening bytes s → StreamReach w bytes s
  further : {s t : Stream} → StreamReach w bytes s → StreamStep w s t → StreamReach w bytes t
