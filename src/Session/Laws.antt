-- ===== src/Session/Laws.antt =====
-- Sending and receiving on the cable.
use lptstore.Prelude.{ℕ, zero, suc, ◌%◌, ◌≡◌, refl, List, [], ◌∷◌, ◌++◌, length, All, arith, some}
use lptstore.Compress.{IsByte}
use lptstore.Comms.{Link}
use lptstore.Disk.{Disk}
use lptstore.Protocol.{Pico, done, lptprotocol_task}
use lptstore.Host.{ok, pure, read_byte, write_byte, read_many, write_many}
use lptstore.Host.Laws.{>>=-ok}
use lptstore.Session.{Cable, link_of, deliver, serve, receive, cable_peer}
use mathlib.Core.List.{append_assoc, append-nil}

module _ (D : Disk) where
  abbrev pub sends : Cable D → List ℕ → Cable D
  sends s xs = record s { inbox = s.inbox ++ xs }

  pub write_many-sends :
      (xs : List ℕ) (s : Cable D)
      → All IsByte xs
      → write_many (cable_peer D) xs s ≡ ok tt (sends s xs)
  unfolding write_many write_byte
  write_many-sends [] s bytes = rw append-nil
  write_many-sends (x ∷ xs) s (byte, bytes) =
      let same : x % 256 ≡ x = omega arith in
      rw (same, write_many-sends xs (sends s (x ∷ [])) bytes, append_assoc)

  pub read_many-waiting :
      (xs : List ℕ) (n : ℕ) (p : Pico D)
      → length xs ≡ n
      → read_many (cable_peer D) n (record { pico = p; inbox = []; outbox = xs })
        ≡ ok xs (record { pico = p; inbox = []; outbox = [] })
  unfolding read_many read_byte receive
  read_many-waiting [] zero p h = refl
  read_many-waiting [] (suc n) p h = absurd (omega arith)
  read_many-waiting (x ∷ xs) zero p h = absurd (omega arith)
  read_many-waiting (x ∷ xs) (suc n) p h =
      >>=-ok (read_many (cable_peer D) n) (λ bytes. pure (x ∷ bytes))
        (read_many-waiting xs n p (omega arith))

  pub read_byte-waiting :
      (x : ℕ) (rest inbox : List ℕ) (p : Pico D)
      → read_byte (cable_peer D) (record { pico = p; inbox = inbox; outbox = x ∷ rest })
        ≡ ok x (record { pico = p; inbox = inbox; outbox = rest })
  unfolding read_byte receive
  read_byte-waiting x rest inbox p = refl

  deliver-first :
      (x : ℕ) (rest inbox out : List ℕ) (p : Pico D)
      → out ≡ x ∷ rest
      → deliver D out p inbox ≡ some (x, record { pico = p; inbox = inbox; outbox = rest })
  unfolding deliver
  deliver-first x rest inbox out p e = rw (e, deliver)

  serve-first :
      (x : ℕ) (rest inbox : List ℕ) (p q : Pico D) (l : Link)
      → lptprotocol_task D p (link_of inbox) ≡ done q l
      → l.outgoing ≡ x ∷ rest
      → serve D (record { pico = p; inbox = inbox; outbox = [] })
        ≡ some (x, record { pico = q; inbox = l.incoming; outbox = rest })
  unfolding serve
  serve-first x rest inbox p q l h e =
      rw (h, serve) (deliver-first x rest l.incoming l.outgoing q e)

  -- The first byte of an answer is read: the target has run its task.
  pub read_byte-served :
      (x : ℕ) (rest inbox : List ℕ) (p q : Pico D) (l : Link)
      → lptprotocol_task D p (link_of inbox) ≡ done q l
      → l.outgoing ≡ x ∷ rest
      → read_byte (cable_peer D) (record { pico = p; inbox = inbox; outbox = [] })
        ≡ ok x (record { pico = q; inbox = l.incoming; outbox = rest })
  unfolding read_byte receive
  read_byte-served x rest inbox p q l h e = rw (serve-first x rest inbox p q l h e, read_byte)
