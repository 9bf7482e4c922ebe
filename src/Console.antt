-- ===== src/Console.antt =====
-- dos/SDPP10/CPRINT.C: the driver's own printing, as the characters that outchr is given.
pub mod Numbers
use lptstore.Prelude.{
  ℕ, zero, suc, ◌+◌, ◌-◌, ◌/◌, ◌%◌, ◌^◌, Bool, true, false, ◌&&◌, List, [], ◌∷◌, ◌++◌, ◌==◌, ltb,
  leb, if◌then◌else◌, Option, none, some,
}

-- outdec on a 16-bit int in two's complement: 5 levels of the recursion are enough for its digits.
unfoldable pub outdec : ℕ → ℕ → List ℕ
outdec zero val = []
outdec (suc fuel) val =
    let below = leb 0x8000 val in
    let v = if below then (2 ^ 16 - val) % 2 ^ 16 else val in
    let high = outdec fuel (v / 10) in
    (if below then 45 ∷ [] else [])
    ++ (if ltb 9 v && ltb v 0x8000 then high ++ ((48 + v % 10) ∷ []) else ((48 + v) % 256) ∷ [])

unfoldable pub hex_digit : ℕ → ℕ
hex_digit val = let d = val % 16 in if ltb 9 d then 65 + d - 10 else 48 + d

unfoldable pub outhex : ℕ → ℕ → List ℕ
outhex val zero = hex_digit val ∷ []
outhex val (suc zero) = hex_digit val ∷ []
outhex val (suc (suc n)) = outhex (val / 2 ^ 4) (suc n) ++ (hex_digit val ∷ [])

-- The bytes of the long, the last in memory first.
unfoldable pub outlhex : ℕ → List ℕ
outlhex lval =
    outhex (lval / 2 ^ 24 % 256) 2
    ++ (outhex (lval / 2 ^ 16 % 256) 2 ++ (outhex (lval / 2 ^ 8 % 256) 2 ++ outhex (lval % 256) 2))

-- The arguments behind the format, and what va_arg reads of them.
pub data Arg : Type 0 where
  num : ℕ → Arg
  long : ℕ → Arg
  str : List ℕ → Arg

-- Where cdprintf stands: in the text, behind a `%`, or behind the digit of a width.
pub data Mode : Type 0 where
  plain : Mode
  escape : Mode
  sized : ℕ → Mode

abbrev also : List ℕ → Option (List ℕ) → Option (List ℕ)
also out rest = elim rest [ none ↦ none | some more ↦ some (out ++ more) ]

-- What one character of the format prints: the characters, the arguments that are left and the mode
-- behind it. `none`: an argument is missing or has another type.
unfoldable pub print_plain : ℕ → List Arg → List ℕ × List Arg × Mode
print_plain c args =
    if c == 37
    then ([], args, escape)
    else if c == 10
    then (13 ∷ 10 ∷ [], args, plain)
    else (c ∷ [], args, plain)

unfoldable pub print_escape : ℕ → ℕ → List Arg → Option (List ℕ × List Arg × Mode)
print_escape size c args =
    if c == 99
    then elim args [ num v ∷ rest ↦ some ((v % 256) ∷ [], rest, plain) | _ ↦ none ]
    else if c == 100
    then elim args [ num v ∷ rest ↦ some (outdec 5 v, rest, plain) | _ ↦ none ]
    else if c == 120
    then elim args [
      | num v ∷ rest ↦ some (outhex v (if ltb 0 size then size else 4), rest, plain)
      | _ ↦ none
    ]
    else if c == 76
    then elim args [ long v ∷ rest ↦ some (outlhex v, rest, plain) | _ ↦ none ]
    else if c == 115
    then elim args [ str s ∷ rest ↦ some (s, rest, plain) | _ ↦ none ]
    else some (print_plain c args)

unfoldable pub print_char : Mode → ℕ → List Arg → Option (List ℕ × List Arg × Mode)
print_char plain c args = some (print_plain c args)
print_char escape c args =
    if leb 48 c && leb c 57 then some ([], args, sized (c - 48)) else print_escape 0 c args
print_char (sized size) c args = print_escape size c args

unfoldable pub cdprintf : Mode → List ℕ → List Arg → Option (List ℕ)
cdprintf mode [] args = some []
cdprintf mode (c ∷ msg) args = elim (print_char mode c args) [
  | none ↦ none
  | some (out, rest, next) ↦ also out (cdprintf next msg rest)
]
