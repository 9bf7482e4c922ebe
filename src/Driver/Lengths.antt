-- ===== src/Driver/Lengths.antt =====
-- The loop of parse_options ends: each option takes characters from the line.
use lptstore.Prelude.{
  ℕ, zero, suc, ◌+◌, ◌-◌, ◌*◌, ◌%◌, ◌^◌, ◌≡◌, ◌≤◌, ◌<◌, inl, inr, refl, sym, ◌∙◌, Bool, true, false,
  not, List, [], ◌∷◌, ◌==◌, if◌then◌else◌, Option, none, some, length, arith, Bool-cases,
}
use lptstore.Driver.Options.{
  Options, iseol, first, spanwhite, skip_name, digits, option_value, parse_option, parse_loop,
  parse_options,
}

length-spanwhite : (p : List ℕ) → length (spanwhite p) ≤ length p
unfolding spanwhite
length-spanwhite [] = omega arith
length-spanwhite (ch ∷ rest) = ground (arith, length-spanwhite rest)

length-skip_name : (p : List ℕ) → length (skip_name p) ≤ length p
unfolding skip_name iseol
length-skip_name [] = omega arith
length-skip_name (ch ∷ rest) = ground (arith, length-skip_name rest)

digits-shorter :
    (p : List ℕ) (v w : ℕ) (null : Bool) (behind : List ℕ)
    → digits p v null ≡ some (w, behind)
    → length behind ≤ length p
unfolding digits
digits-shorter [] v w null behind e = ground arith
digits-shorter (ch ∷ rest) v w null behind e =
    ground (arith, digits-shorter rest ((v * 10 + (ch - 48)) % 2 ^ 16) w false behind)

option_value-shorter :
    (p : List ℕ) (w : ℕ) (behind : List ℕ)
    → option_value p ≡ some (w, behind)
    → length behind < length p
unfolding option_value
option_value-shorter [] w behind e = ground arith
option_value-shorter (ch ∷ rest) w behind e = ground (arith, digits-shorter rest 0 w true behind)

parse_option-shorter :
    (p : List ℕ) (o o' : Options) (behind : List ℕ)
    → parse_option p o ≡ some (o', behind)
    → length behind < length p
unfolding parse_option
parse_option-shorter [] o o' behind e = ground arith
parse_option-shorter (ch ∷ rest) o o' behind e = go (option_value rest) refl
  where
    go : (r : Option (ℕ × List ℕ)) → option_value rest ≡ r → length behind < suc (length rest)
    go none missing = ground arith
    go (some (w, q)) found = ground (arith, option_value-shorter rest w q found)

-- With more rounds than there are characters the loop ends, and one round more does not matter.
abbrev Ends : ℕ → Type 0
Ends fuel =
    (p : List ℕ) (o : Options)
    → length p < fuel
    → (r : Bool × Options) × (parse_loop fuel p o ≡ some r) × (parse_loop (suc fuel) p o ≡ some r)

parse_loop-Ends : (fuel : ℕ) → Ends fuel
unfolding parse_loop
parse_loop-Ends zero p o h = absurd (omega arith)
parse_loop-Ends (suc fuel) p o h = elim (Bool-cases (iseol (first p))) [
  | inl ends ↦ ((true, o), rw ends, rw ends)
  | inr more ↦ rw more (go (parse_loop-Ends fuel) (spanwhite p) (omega (arith, length-spanwhite p)))
]
  where
    after :
        Ends fuel
        → (r : Option (Options × List ℕ))
        → ((o' : Options) (behind : List ℕ) → r ≡ some (o', behind) → length behind < fuel)
        → (x : Bool × Options) × ((elim r as (λ _. Option (Bool × Options)) [
          | none ↦ some (false, o)
          | some (o', behind) ↦ parse_loop fuel (spanwhite behind) o'
        ])
            ≡ some x)
          × ((elim r as (λ _. Option (Bool × Options)) [
            | none ↦ some (false, o)
            | some (o', behind) ↦ parse_loop (suc fuel) (spanwhite behind) o'
          ])
              ≡ some x)
    after ih none short = ((false, o), refl, refl)
    after ih (some (o', behind)) short =
        let left = short o' behind refl in
        ih (spanwhite behind) o' (omega (arith, length-spanwhite behind))

    go :
        Ends fuel
        → (q : List ℕ) → length q ≤ fuel
        → (x : Bool × Options) × ((elim q as (λ _. Option (Bool × Options)) [
          | [] ↦ some (false, o)
          | ch ∷ rest ↦
              if not (ch == 47)
              then some (false, o)
              else elim (parse_option rest o) as (λ _. Option (Bool × Options)) [
                | none ↦ some (false, o)
                | some (o', behind) ↦ parse_loop fuel (spanwhite behind) o'
              ]
        ])
            ≡ some x)
          × ((elim q as (λ _. Option (Bool × Options)) [
            | [] ↦ some (false, o)
            | ch ∷ rest ↦
                if not (ch == 47)
                then some (false, o)
                else elim (parse_option rest o) as (λ _. Option (Bool × Options)) [
                  | none ↦ some (false, o)
                  | some (o', behind) ↦ parse_loop (suc fuel) (spanwhite behind) o'
                ]
          ])
              ≡ some x)
    go ih [] short = ((false, o), refl, refl)
    go ih (ch ∷ rest) short = elim (Bool-cases (ch == 47)) [
      | inl slash ↦ rw slash (
          after ih (parse_option rest o)
            (λ o' behind e. omega (arith, parse_option-shorter rest o o' behind e)))
      | inr bad ↦ rw bad ((false, o), refl, refl)
    ]

-- The loop of parse_options ends on every line: with a round for each character and one more it has a
-- result, and with any number of rounds more it has the same.
pub parse_options-ends :
    (more : ℕ) (p : List ℕ) (o : Options)
    → (r : Bool × Options) × (parse_options p o ≡ some r)
      × (parse_loop (more + suc (length p)) (spanwhite (skip_name p)) o ≡ some r)
unfolding parse_options
parse_options-ends zero p o =
    let e : 0 + suc (length p) ≡ suc (length p) = omega arith in
    let (r, run, _) =
      parse_loop-Ends (suc (length p)) (spanwhite (skip_name p)) o
        (omega (arith, length-spanwhite (skip_name p), length-skip_name p)) in
    (r, run, rw e run)
parse_options-ends (suc more) p o =
    let (r, run, runs) = parse_options-ends more p o in
    let e : suc more + suc (length p) ≡ suc (more + suc (length p)) = omega arith in
    let (r', before, behind) =
      parse_loop-Ends (more + suc (length p)) (spanwhite (skip_name p)) o
        (omega (arith, length-spanwhite (skip_name p), length-skip_name p)) in
    (r, run, rw e (behind ∙ sym before ∙ runs))
