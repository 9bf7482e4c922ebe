-- ===== src/Host/Laws.antt =====
-- Steps of the driver that succeed.
use lptstore.Prelude.{◌≡◌}
use lptstore.Host.{Run, ok, ◌>>=◌}

module _ {S A B : Type 0} where
  pub >>=-ok :
      (m : S → Run S A) (f : A → S → Run S B) {s s' : S} {a : A}
      → m s ≡ ok a s'
      → (m >>= f) s ≡ f a s'
  >>=-ok m f h = rw (h, ◌>>=◌)
