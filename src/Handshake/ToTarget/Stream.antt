-- ===== src/Handshake/ToTarget/Stream.antt =====
-- Many bytes to the target: the calls of write_byte in LPTWrite and LPTRead of dos/SDPP10/LPTSTORE.C with
-- lptcomms_readbytes of pico/lptcomms.c.
use lptstore.Prelude.{ℕ, suc, ◌≡◌, List, [], ◌∷◌, ◌++◌, length}
use lptstore.Handshake.{Board}
use lptstore.Handshake.ToTarget.{Config, Step, IsStart, out_high, finished, wait_flag, got}

-- The two calls that run, the byte that write_byte was called with and those that it is called with
-- next, what lptcomms_readbytes has put into the buffer, and how many bytes it reads after this one.
pub record Stream : Type 0 where
  pub config : Config
  pub byte : ℕ
  pub left : List ℕ
  pub taken : List ℕ
  pub after : ℕ

-- An access of the wires, or the next call of either loop: `buff[i] = r` where lptcomms_readbyte has
-- not failed.
pub data StreamStep (w : Board) (s : Stream) : Stream → Type 0 where
  access : (t : Config) → Step w s.byte s.config t → StreamStep w s (record s { config = t })
  next_send :
      (b : ℕ) (rest : List ℕ)
      → s.config.sender ≡ finished
      → s.left ≡ b ∷ rest
      → StreamStep w s
          (record s { config = record (s.config) { sender = out_high }; byte = b; left = rest })
  next_receive :
      (n : ℕ)
      → s.config.receiver ≡ got
      → s.after ≡ suc n
      → StreamStep w s (record s {
        config = record (s.config) { receiver = wait_flag };
        taken = s.taken ++ (s.config.d ∷ []);
        after = n;
      })

-- The target reads as many bytes as the host writes, and the lines are idle.
pub record IsOpening (bytes : List ℕ) (s : Stream) : Type 0 where
  pub config_lem : IsStart s.config
  pub bytes_lem : bytes ≡ s.byte ∷ s.left
  pub taken_lem : s.taken ≡ []
  pub after_lem : suc s.after ≡ length bytes

pub data StreamReach (w : Board) (bytes : List ℕ) : Stream → Type 0 where
  opening : (s : Stream) → IsOpening bytes s → StreamReach w bytes s
  further : {s t : Stream} → StreamReach w bytes s → StreamStep w s t → StreamReach w bytes t
