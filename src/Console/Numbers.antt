-- ===== src/Console/Numbers.antt =====
-- The numbers that the driver prints read back as the numbers it was given.
use lptstore.Prelude.{
  ℕ, zero, suc, ◌+◌, ◌-◌, ◌*◌, ◌/◌, ◌%◌, ◌^◌, ◌≡◌, ◌≢◌, ◌⊎◌, ◌≤◌, ◌<◌, refl, ◌∙◌, List, [], ◌∷◌,
  ◌++◌, ltb, leb, if◌then◌else◌, arith, Bool, false, Bool-cases, inl, inr, length, length-append,
  ◌&&◌, All,
}
use lptstore.Console.{outdec, hex_digit, outhex}

-- The value of a list of digits, the highest first, after `acc`.
abbrev pub value : (ℕ → ℕ) → ℕ → ℕ → List ℕ → ℕ
value of base acc [] = acc
value of base acc (c ∷ rest) = value of base (acc * base + of c) rest

abbrev pub decimal : ℕ → ℕ
decimal c = c - 48

abbrev pub hexadecimal : ℕ → ℕ
hexadecimal c = if ltb 64 c then c - 55 else c - 48

value-append :
    (of : ℕ → ℕ) (base acc : ℕ) (xs ys : List ℕ)
    → value of base acc (xs ++ ys) ≡ value of base (value of base acc xs) ys
value-append of base acc [] ys = refl
value-append of base acc (x ∷ xs) ys = value-append of base (acc * base + of x) xs ys

-- One more level of the recursion prints the last digit of a number that is not negative.
outdec-suc :
    (fuel val : ℕ)
    → val < 2 ^ 15
    → outdec (suc fuel) val
      ≡ (if ltb 9 val then outdec fuel (val / 10) ++ ((48 + val % 10) ∷ []) else (48 + val) ∷ [])
unfolding outdec
outdec-suc fuel val g =
    let short = last val in
    rw (not_below val g) (
      rw (and_below (ltb 9 val) val g)
        (elim (Bool-cases (ltb 9 val)) [ inl more ↦ rw more | inr ends ↦ rw (ends, short ends) ]))
  where
    not_below : (v : ℕ) → v < 2 ^ 15 → leb 0x8000 v ≡ false
    not_below v h = ground arith

    and_below : (b : Bool) (v : ℕ) → v < 2 ^ 15 → (b && ltb v 0x8000) ≡ b
    and_below b v h = ground arith

    last : (v : ℕ) → ltb 9 v ≡ false → (48 + v) % 256 ≡ 48 + v
    last v h = ground arith

-- With a level of recursion for each digit, what outdec prints of a number that is not negative reads
-- as that number.
outdec-reads :
    (fuel val : ℕ)
    → val < 10 ^ suc fuel
    → val < 2 ^ 15
    → value decimal 10 0 (outdec (suc fuel) val) ≡ val
outdec-reads zero val h g = rw (outdec-suc zero val g) (ground arith)
outdec-reads (suc fuel) val h g = rw (outdec-suc (suc fuel) val g) (elim (Bool-cases (ltb 9 val)) [
  | inl more ↦
      rw
        (
          more,
          value-append decimal 10 0 (outdec (suc fuel) (val / 10)) ((48 + val % 10) ∷ []),
          outdec-reads fuel (val / 10) (omega arith) (omega arith),
        )
        (omega arith)
  | inr ends ↦ rw ends (omega arith)
])

-- A character that is a decimal digit.
abbrev pub IsDigit : ℕ → Type 0
IsDigit c = (48 ≤ c) × (c ≤ 57)

All-append : (xs ys : List ℕ) → All IsDigit xs → All IsDigit ys → All IsDigit (xs ++ ys)
All-append [] ys all more = more
All-append (x ∷ xs) ys (one, all) more = (one, All-append xs ys all more)

outdec-IsDigit : (fuel val : ℕ) → val < 2 ^ 15 → All IsDigit (outdec fuel val)
unfolding outdec
outdec-IsDigit zero val g = tt
outdec-IsDigit (suc fuel) val g = rw (outdec-suc fuel val g) (elim (Bool-cases (ltb 9 val)) [
  | inl more ↦ rw more (
      All-append (outdec fuel (val / 10)) ((48 + val % 10) ∷ [])
        (outdec-IsDigit fuel (val / 10) (omega arith)) ((omega arith, omega arith), tt))
  | inr ends ↦ rw ends ((omega arith, ground (arith, ends)), tt)
])

-- The first digit is there, and is not 0.
abbrev pub NoLeadingZero : List ℕ → Type 0
NoLeadingZero [] = ⊥
NoLeadingZero (c ∷ rest) = c ≢ 48

append-NoLeadingZero : (xs ys : List ℕ) → NoLeadingZero xs → NoLeadingZero (xs ++ ys)
append-NoLeadingZero [] ys h = absurd h
append-NoLeadingZero (c ∷ rest) ys h = h

outdec-NoLeadingZero :
    (fuel val : ℕ)
    → 0 < val
    → val < 10 ^ suc fuel
    → val < 2 ^ 15
    → NoLeadingZero (outdec (suc fuel) val)
outdec-NoLeadingZero zero val some_val h g =
    let ends : ltb 9 val ≡ false = ground arith in
    rw (outdec-suc zero val g, ends) (omega (arith, some_val))
outdec-NoLeadingZero (suc fuel) val some_val h g =
    rw (outdec-suc (suc fuel) val g) (elim (Bool-cases (ltb 9 val)) [
      | inl more ↦ rw more (
          append-NoLeadingZero (outdec (suc fuel) (val / 10)) ((48 + val % 10) ∷ []) (
            outdec-NoLeadingZero fuel (val / 10) (ground (arith, more)) (omega arith)
              (omega arith)))
      | inr ends ↦ rw ends (omega (arith, some_val))
    ])

outdec-starts :
    (val : ℕ) → val < 2 ^ 15 → ((val ≡ 0) × (outdec 5 val ≡ 48 ∷ [])) ⊎ NoLeadingZero (outdec 5 val)
unfolding outdec
outdec-starts zero h = inl (refl, refl)
outdec-starts (suc n) h = inr (outdec-NoLeadingZero 4 (suc n) (omega arith) (omega arith) h)

-- Of every int that is not negative, outdec prints characters from 0 to 9 alone, and they read as it;
-- the first is not 0, but for the number 0, of which one is printed.
pub outdec-value :
    (val : ℕ)
    → val < 2 ^ 15
    → All IsDigit (outdec 5 val)
      × (value decimal 10 0 (outdec 5 val) ≡ val)
      × (((val ≡ 0) × (outdec 5 val ≡ 48 ∷ [])) ⊎ NoLeadingZero (outdec 5 val))
outdec-value val h =
    (outdec-IsDigit 5 val h, outdec-reads 4 val (omega arith) h, outdec-starts val h)

hex_digit-reads : (val : ℕ) → hexadecimal (hex_digit val) ≡ val % 16
unfolding hex_digit
hex_digit-reads val = ground arith

-- outhex with n + 1 digits prints n + 1 characters, and they read as the number, where it is below
-- 16 ^ (n + 1).
pub outhex-value :
    (val n : ℕ)
    → val < 16 ^ suc n
    → (length (outhex val (suc n)) ≡ suc n) × (value hexadecimal 16 0 (outhex val (suc n)) ≡ val)
unfolding outhex
outhex-value val zero h = (refl, rw (hex_digit-reads val) (omega arith))
outhex-value val (suc n) h =
    let (sized, reads) = outhex-value (val / 2 ^ 4) n (omega arith) in
    (
      length-append (outhex (val / 2 ^ 4) (suc n)) (hex_digit val ∷ []) ∙ rw sized (omega arith),
      rw
          (
            value-append hexadecimal 16 0 (outhex (val / 2 ^ 4) (suc n)) (hex_digit val ∷ []),
            reads,
            hex_digit-reads val,
          )
          (omega arith),
    )
