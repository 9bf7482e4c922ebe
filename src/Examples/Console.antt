-- ===== src/Examples/Console.antt =====
-- Numbers on the console.
use lptstore.Prelude.{ℕ, ◌≡◌, ◌⊎◌, All, [], ◌∷◌, arith}
use lptstore.Console.{outdec}
use lptstore.Console.Numbers.{value, decimal, IsDigit, NoLeadingZero, outdec-value}

outdec-value_example :
    All IsDigit (outdec 5 32767)
    × (value decimal 10 0 (outdec 5 32767) ≡ 32767)
    × (((◌≡◌ {A = ℕ} 32767 0) × (outdec 5 32767 ≡ 48 ∷ [])) ⊎ NoLeadingZero (outdec 5 32767))
outdec-value_example = outdec-value 32767 (omega arith)
