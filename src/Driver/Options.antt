-- ===== src/Driver/Options.antt =====
-- The options of the CONFIG.SYS line: parse_options of dos/SDPP10/DRIVER.C. The text is the list of its
-- characters; a list that ends stands for the terminating zero.
use lptstore.Prelude.{
  ℕ, zero, suc, ◌+◌, ◌-◌, ◌*◌, ◌%◌, ◌^◌, ◌≡◌, ◌<◌, refl, Bool, true, false, not, ◌&&◌, ◌||◌, List,
  [], ◌∷◌, ◌==◌, ltb, leb, if◌then◌else◌, Option, none, some, length, arith, Bool-cases, inl, inr,
}

pub record Options : Type 0 where
  pub debug : Bool
  pub portbase : ℕ

unfoldable pub iseol : ℕ → Bool
iseol ch = ch == 0 || (ch == 13 || ch == 10)

abbrev pub is_white : ℕ → Bool
is_white ch = ch == 32 || ch == 9

abbrev pub is_digit : ℕ → Bool
is_digit ch = leb 48 ch && leb ch 57

-- `*p`
abbrev pub first : List ℕ → ℕ
first [] = 0
first (ch ∷ rest) = ch

unfoldable pub spanwhite : List ℕ → List ℕ
spanwhite [] = []
spanwhite (ch ∷ rest) = let q = spanwhite rest in if is_white ch then q else ch ∷ rest

-- The loop that skips the driver's own file name.
unfoldable pub skip_name : List ℕ → List ℕ
skip_name [] = []
skip_name (ch ∷ rest) = let q = skip_name rest in if is_white ch || iseol ch then ch ∷ rest else q

-- The digits of option_value, `v` so far and whether none has been seen.
unfoldable pub digits : List ℕ → ℕ → Bool → Option (ℕ × List ℕ)
digits [] v null = if null then none else some (v, [])
digits (ch ∷ rest) v null =
    let q = digits rest ((v * 10 + (ch - 48)) % 2 ^ 16) false in
    if is_digit ch then q else (if null then none else some (v, ch ∷ rest))

unfoldable pub option_value : List ℕ → Option (ℕ × List ℕ)
option_value [] = none
option_value (ch ∷ rest) = if ch == 61 then digits rest 0 true else none

-- One option, from its letter on, and the text behind it: `case 'd', 'D'` is `case 'D'`, and
-- `case 'b', 'B'` is `case 'B'`.
unfoldable pub parse_option : List ℕ → Options → Option (Options × List ℕ)
parse_option [] o = none
parse_option (ch ∷ rest) o =
    if ch == 68
    then some (record o { debug = true }, rest)
    else if ch == 66
    then elim (option_value rest) [
      | none ↦ none
      | some (temp, behind) ↦
          if ltb temp 1 || ltb 5 temp
          then some (o, behind)
          else some (record o { portbase = temp - 1 }, behind)
    ]
    else none

-- The loop over the options, in rounds; `none`: no rounds are left.
unfoldable pub parse_loop : ℕ → List ℕ → Options → Option (Bool × Options)
parse_loop zero p o = none
parse_loop (suc fuel) p o = if iseol (first p) then some (true, o) else elim (spanwhite p) [
  | [] ↦ some (false, o)
  | ch ∷ rest ↦ if not (ch == 47) then some (false, o) else elim (parse_option rest o) [
    | none ↦ some (false, o)
    | some (o', behind) ↦ parse_loop fuel (spanwhite behind) o'
  ]
]

-- A round for each character of the line, and one more.
unfoldable pub parse_options : List ℕ → Options → Option (Bool × Options)
parse_options p o = parse_loop (suc (length p)) (spanwhite (skip_name p)) o

parse_option-portbase :
    (p : List ℕ) (o o' : Options) (behind : List ℕ)
    → o.portbase < 5
    → parse_option p o ≡ some (o', behind)
    → o'.portbase < 5
unfolding parse_option
parse_option-portbase [] o o' behind h e = ground arith
parse_option-portbase (ch ∷ rest) o o' behind h e = ground arith

-- The index into the port bases, where the loop has ended.
abbrev pub HasPortbase : Option (Bool × Options) → Type 0
HasPortbase none = Unit
HasPortbase (some (good, o)) = o.portbase < 5

parse_loop-HasPortbase :
    (fuel : ℕ) (p : List ℕ) (o : Options) → o.portbase < 5 → HasPortbase (parse_loop fuel p o)
unfolding parse_loop
parse_loop-HasPortbase zero p o h = tt
parse_loop-HasPortbase (suc fuel) p o h = elim (Bool-cases (iseol (first p))) [
  | inl ends ↦ rw ends h
  | inr more ↦ rw more (go (λ q o'. parse_loop-HasPortbase fuel q o') (spanwhite p))
]
  where
    after :
        ((q : List ℕ) (o' : Options) → o'.portbase < 5 → HasPortbase (parse_loop fuel q o'))
        → (r : Option (Options × List ℕ))
        → ((o' : Options) (behind : List ℕ) → r ≡ some (o', behind) → o'.portbase < 5)
        → HasPortbase (elim r as (λ _. Option (Bool × Options)) [
          | none ↦ some (false, o)
          | some (o', behind) ↦ parse_loop fuel (spanwhite behind) o'
        ])
    after ih none keeps = h
    after ih (some (o', behind)) keeps = ih (spanwhite behind) o' (keeps o' behind refl)

    go :
        ((q : List ℕ) (o' : Options) → o'.portbase < 5 → HasPortbase (parse_loop fuel q o'))
        → (q : List ℕ)
        → HasPortbase (elim q as (λ _. Option (Bool × Options)) [
          | [] ↦ some (false, o)
          | ch ∷ rest ↦
              if not (ch == 47)
              then some (false, o)
              else elim (parse_option rest o) as (λ _. Option (Bool × Options)) [
                | none ↦ some (false, o)
                | some (o', behind) ↦ parse_loop fuel (spanwhite behind) o'
              ]
        ])
    go ih [] = h
    go ih (ch ∷ rest) = elim (Bool-cases (ch == 47)) [
      | inl slash ↦ rw slash (
          after ih (parse_option rest o)
            (λ o' behind e. parse_option-portbase rest o o' behind h e))
      | inr bad ↦ rw bad h
    ]

-- Whatever the line is, parse_options leaves an index into the five port bases where it found one.
pub parse_options-HasPortbase :
    (p : List ℕ) (o : Options) → o.portbase < 5 → HasPortbase (parse_options p o)
unfolding parse_options
parse_options-HasPortbase p o h =
    parse_loop-HasPortbase (suc (length p)) (spanwhite (skip_name p)) o h
