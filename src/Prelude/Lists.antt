-- ===== src/Prelude/Lists.antt =====
-- Lists measured and indexed by native numbers, under the library's names.
use Prim.Native.Nat.{ℕ, zero, suc, ◌+◌, ◌-◌, ◌≤◌, ◌<◌}
use mathlib.Core.Path.{◌≡◌, refl, ap}
use mathlib.Core.Logic.{◌≢◌}
use mathlib.Core.List.{List, [], ◌∷◌, ◌++◌, append-nil}
use mathlib.Core.Option.{Option, none, some}
use native.Mathlib.Omega.{arith}

module _ {ℓ} {A : Type ℓ} where
  abbrev pub length : List A → ℕ
  length [] = 0
  length (x ∷ xs) = suc (length xs)

  abbrev pub get_elem? : List A → ℕ → Option A
  get_elem? [] i = none
  get_elem? (x ∷ xs) zero = some x
  get_elem? (x ∷ xs) (suc i) = get_elem? xs i

  -- A write out of bounds changes nothing.
  abbrev pub set : List A → ℕ → A → List A
  set [] i v = []
  set (x ∷ xs) zero v = v ∷ xs
  set (x ∷ xs) (suc i) v = x ∷ set xs i v

  abbrev pub get_or : List A → ℕ → A → A
  get_or [] i d = d
  get_or (x ∷ xs) zero d = x
  get_or (x ∷ xs) (suc i) d = get_or xs i d

  abbrev pub take : ℕ → List A → List A
  take zero xs = []
  take (suc n) [] = []
  take (suc n) (x ∷ xs) = x ∷ take n xs

  abbrev pub drop : ℕ → List A → List A
  drop zero xs = xs
  drop (suc n) [] = []
  drop (suc n) (x ∷ xs) = drop n xs

  abbrev pub replicate : ℕ → A → List A
  replicate zero a = []
  replicate (suc n) a = a ∷ replicate n a

  -- `memcpy` of `xs` over the front of `old`.
  abbrev pub overlay : List A → List A → List A
  overlay xs old = xs ++ drop (length xs) old

  abbrev pub All {κ} : (A → Type κ) → List A → Type κ
  All P [] = Unit {κ}
  All P (x ∷ xs) = P x × All P xs

module _ {ℓ} {A : Type ℓ} where
  pub length-append : (xs ys : List A) → length (xs ++ ys) ≡ length xs + length ys
  length-append [] ys = omega arith
  length-append (x ∷ xs) ys = omega (arith, length-append xs ys)

  pub take-append : (xs ys : List A) → take (length xs) (xs ++ ys) ≡ xs
  take-append [] ys = refl
  take-append (x ∷ xs) ys = ap (λ zs. x ∷ zs) (take-append xs ys)

  pub drop-append : (xs ys : List A) → drop (length xs) (xs ++ ys) ≡ ys
  drop-append [] ys = refl
  drop-append (x ∷ xs) ys = drop-append xs ys

  pub take-length : (xs : List A) → take (length xs) xs ≡ xs
  take-length [] = refl
  take-length (x ∷ xs) = ap (λ zs. x ∷ zs) (take-length xs)

  pub length-drop : (n : ℕ) (xs : List A) → length (drop n xs) ≡ length xs - n
  length-drop zero xs = omega arith
  length-drop (suc n) [] = omega arith
  length-drop (suc n) (x ∷ xs) = omega (arith, length-drop n xs)

  pub length-replicate : (n : ℕ) (a : A) → length (replicate n a) ≡ n
  length-replicate zero a = refl
  length-replicate (suc n) a = ap suc (length-replicate n a)

  pub drop_all : (n : ℕ) (xs : List A) → length xs ≤ n → drop n xs ≡ []
  drop_all zero [] h = refl
  drop_all zero (x ∷ xs) h = absurd (omega arith)
  drop_all (suc n) [] h = refl
  drop_all (suc n) (x ∷ xs) h = drop_all n xs (omega arith)

  pub overlay_whole : (xs old : List A) → length old ≤ length xs → overlay xs old ≡ xs
  overlay_whole xs old h = rw (drop_all (length xs) old h) (append-nil xs)

  pub length-overlay :
      (xs old : List A) → length xs ≤ length old → length (overlay xs old) ≡ length old
  length-overlay xs old h =
      omega (arith, length-append xs (drop (length xs) old), length-drop (length xs) old)

  pub take-overlay : (xs old : List A) → take (length xs) (overlay xs old) ≡ xs
  take-overlay xs old = take-append xs (drop (length xs) old)

  pub drop-overlay : (xs old : List A) → drop (length xs) (overlay xs old) ≡ drop (length xs) old
  drop-overlay xs old = drop-append xs (drop (length xs) old)

  pub take_whole : (n : ℕ) (xs : List A) → length xs ≡ n → take n xs ≡ xs
  take_whole n xs h = rw (← h) (take-length xs)

  pub take-overlay_sized : (n : ℕ) (xs old : List A) → length xs ≡ n → take n (overlay xs old) ≡ xs
  take-overlay_sized n xs old h = rw (← h) (take-overlay xs old)

  pub length-take_within : (n : ℕ) (xs : List A) → n ≤ length xs → length (take n xs) ≡ n
  length-take_within zero xs h = refl
  length-take_within (suc n) [] h = absurd (omega arith)
  length-take_within (suc n) (x ∷ xs) h = ap suc (length-take_within n xs (omega arith))

  pub take-append-drop : (n : ℕ) (xs : List A) → take n xs ++ drop n xs ≡ xs
  take-append-drop zero xs = refl
  take-append-drop (suc n) [] = refl
  take-append-drop (suc n) (x ∷ xs) = ap (λ zs. x ∷ zs) (take-append-drop n xs)

  pub length-set : (xs : List A) (n : ℕ) (v : A) → length (set xs n v) ≡ length xs
  length-set [] n v = refl
  length-set (x ∷ xs) zero v = refl
  length-set (x ∷ xs) (suc n) v = ap suc (length-set xs n v)

  pub get_or-set_hit : (xs : List A) (n : ℕ) (v d : A) → n < length xs → get_or (set xs n v) n d ≡ v
  get_or-set_hit [] n v d h = absurd (omega arith)
  get_or-set_hit (x ∷ xs) zero v d h = refl
  get_or-set_hit (x ∷ xs) (suc n) v d h = get_or-set_hit xs n v d (omega arith)

  pub get_or-set_miss :
      (xs : List A) (n i : ℕ) (v d : A) → i ≢ n → get_or (set xs n v) i d ≡ get_or xs i d
  get_or-set_miss [] n i v d h = refl
  get_or-set_miss (x ∷ xs) zero zero v d h = absurd (h refl)
  get_or-set_miss (x ∷ xs) zero (suc i) v d h = refl
  get_or-set_miss (x ∷ xs) (suc n) zero v d h = refl
  get_or-set_miss (x ∷ xs) (suc n) (suc i) v d h = get_or-set_miss xs n i v d (λ e. h (ap suc e))
