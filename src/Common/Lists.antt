-- ===== src/Common/Lists.antt =====
-- Lists measured and indexed by native numbers, under the library's names.
use Prim.Native.Nat.{ℕ, zero, suc, ◌+◌, ◌-◌, ◌≤◌, ◌<◌, min}
use mathlib.Core.Path.{◌≡◌, refl, ap, ◌∙◌}
use mathlib.Core.Bool.{Bool, true, false}
use mathlib.Core.Option.{Option, none, some}
use mathlib.Core.List.{List, [], ◌∷◌, ◌++◌, map}
use native.Mathlib.Omega.{arith}

module _ {ℓ} {A : Type ℓ} where
  abbrev pub length : List A → ℕ
  length [] = 0
  length (x ∷ xs) = suc (length xs)

  abbrev pub get_elem? : List A → ℕ → Option A
  get_elem? [] i = none
  get_elem? (x ∷ xs) zero = some x
  get_elem? (x ∷ xs) (suc i) = get_elem? xs i

  abbrev pub take : ℕ → List A → List A
  take n [] = []
  take zero (x ∷ xs) = []
  take (suc n) (x ∷ xs) = x ∷ take n xs

  abbrev pub drop : ℕ → List A → List A
  drop n [] = []
  drop zero (x ∷ xs) = x ∷ xs
  drop (suc n) (x ∷ xs) = drop n xs

  abbrev pub concat : List (List A) → List A
  concat [] = []
  concat (xs ∷ xss) = xs ++ concat xss

  abbrev pub is_empty : List A → Bool
  is_empty [] = true
  is_empty (x ∷ xs) = false

  pub length-append : (xs ys : List A) → length (xs ++ ys) ≡ length xs + length ys
  length-append [] ys = omega arith
  length-append (x ∷ xs) ys = omega (arith, length-append xs ys)

  pub length-drop : (n : ℕ) (xs : List A) → length (drop n xs) ≡ length xs - n
  length-drop n [] = omega arith
  length-drop zero (x ∷ xs) = omega arith
  length-drop (suc n) (x ∷ xs) = omega (arith, length-drop n xs)

  pub drop_of_length-le : (n : ℕ) (xs : List A) → length xs ≤ n → drop n xs ≡ []
  drop_of_length-le n [] h = refl
  drop_of_length-le zero (x ∷ xs) h = absurd (omega arith)
  drop_of_length-le (suc n) (x ∷ xs) h = drop_of_length-le n xs (omega arith)

  pub drop-zero : (xs : List A) → drop zero xs ≡ xs
  drop-zero [] = refl
  drop-zero (x ∷ xs) = refl

  pub take-append-drop : (n : ℕ) (xs : List A) → take n xs ++ drop n xs ≡ xs
  take-append-drop n [] = refl
  take-append-drop zero (x ∷ xs) = refl
  take-append-drop (suc n) (x ∷ xs) = ap (λ ys. x ∷ ys) (take-append-drop n xs)

  pub take_of_length-le : (n : ℕ) (xs : List A) → length xs ≤ n → take n xs ≡ xs
  take_of_length-le n [] h = refl
  take_of_length-le zero (x ∷ xs) h = absurd (omega arith)
  take_of_length-le (suc n) (x ∷ xs) h = ap (λ ys. x ∷ ys) (take_of_length-le n xs (omega arith))

  pub drop-drop : (m n : ℕ) (xs : List A) → drop m (drop n xs) ≡ drop (n + m) xs
  drop-drop m n [] = refl
  drop-drop m zero (x ∷ xs) = let e : zero + m ≡ m = omega arith in rw e
  drop-drop m (suc n) (x ∷ xs) =
      let e : suc n + m ≡ suc (n + m) = omega arith in rw e (drop-drop m n xs)

  abbrev pub snoc : List A → A → List A
  snoc xs x = xs ++ x ∷ []

module _ {κ} {B : Type κ} where
  abbrev pub option_cons : Option B → List B → List B
  option_cons none ys = ys
  option_cons (some y) ys = y ∷ ys

  option_cons-append :
      (o : Option B) (ys zs : List B) → option_cons o ys ++ zs ≡ option_cons o (ys ++ zs)
  option_cons-append none ys zs = refl
  option_cons-append (some y) ys zs = refl

module _ {ℓ κ} {A : Type ℓ} {B : Type κ} (f : A → Option B) where
  abbrev pub filter_map : List A → List B
  filter_map [] = []
  filter_map (x ∷ xs) = option_cons (f x) (filter_map xs)

  pub filter_map-append : (xs ys : List A) → filter_map (xs ++ ys) ≡ filter_map xs ++ filter_map ys
  filter_map-append [] ys = refl
  filter_map-append (x ∷ xs) ys =
      rw (filter_map-append xs ys, option_cons-append (f x) (filter_map xs) (filter_map ys))

  length-option_cons : (o : Option B) (ys : List B) → length (option_cons o ys) ≤ suc (length ys)
  length-option_cons none ys = omega arith
  length-option_cons (some y) ys = omega arith

  pub length-filter_map-take : (n : ℕ) (xs : List A) → length (filter_map (take n xs)) ≤ n
  length-filter_map-take n [] = omega arith
  length-filter_map-take zero (x ∷ xs) = omega arith
  length-filter_map-take (suc n) (x ∷ xs) =
      omega (arith, length-option_cons (f x) (filter_map (take n xs)), length-filter_map-take n xs)

module _ {ℓ κ} {A : Type ℓ} (P : A → Type κ) where
  abbrev pub All : List A → Type κ
  All [] = Unit
  All (x ∷ xs) = P x × All xs

  pub All-append : (xs ys : List A) → All xs → All ys → All (xs ++ ys)
  All-append [] ys h k = k
  All-append (x ∷ xs) ys (p, h) k = (p, All-append xs ys h k)

  pub All-take : (n : ℕ) (xs : List A) → All xs → All (take n xs)
  All-take n [] h = tt
  All-take zero (x ∷ xs) h = tt
  All-take (suc n) (x ∷ xs) (p, h) = (p, All-take n xs h)

  pub All-drop : (n : ℕ) (xs : List A) → All xs → All (drop n xs)
  All-drop n [] h = tt
  All-drop zero (x ∷ xs) h = h
  All-drop (suc n) (x ∷ xs) (p, h) = All-drop n xs h

-- Taking and dropping over an append, on either side of the seam.
module _ {ℓ} {A : Type ℓ} where
  pub take-append_short :
      (n : ℕ) (xs ys : List A) → length xs ≤ n → take n (xs ++ ys) ≡ xs ++ take (n - length xs) ys
  take-append_short n [] ys h = let e : n - 0 ≡ n = omega arith in rw e
  take-append_short zero (x ∷ xs) ys h = absurd (omega arith)
  take-append_short (suc n) (x ∷ xs) ys h =
      let e : suc n - suc (length xs) ≡ n - length xs = omega arith in
      rw e (ap (λ zs. x ∷ zs) (take-append_short n xs ys (omega arith)))

  pub drop-append_short :
      (n : ℕ) (xs ys : List A) → length xs ≤ n → drop n (xs ++ ys) ≡ drop (n - length xs) ys
  drop-append_short n [] ys h = let e : n - 0 ≡ n = omega arith in rw e
  drop-append_short zero (x ∷ xs) ys h = absurd (omega arith)
  drop-append_short (suc n) (x ∷ xs) ys h =
      let e : suc n - suc (length xs) ≡ n - length xs = omega arith in
      rw e (drop-append_short n xs ys (omega arith))

  pub take-append_long : (n : ℕ) (xs ys : List A) → n < length xs → take n (xs ++ ys) ≡ take n xs
  take-append_long n [] ys h = absurd (omega arith)
  take-append_long zero (x ∷ xs) ys h = refl
  take-append_long (suc n) (x ∷ xs) ys h =
      ap (λ zs. x ∷ zs) (take-append_long n xs ys (omega arith))

  pub drop-append_long :
      (n : ℕ) (xs ys : List A) → n < length xs → drop n (xs ++ ys) ≡ drop n xs ++ ys
  drop-append_long n [] ys h = absurd (omega arith)
  drop-append_long zero (x ∷ xs) ys h = refl
  drop-append_long (suc n) (x ∷ xs) ys h = drop-append_long n xs ys (omega arith)

  pub drop-suc :
      (m : ℕ) (all : List A) {x : A} {xs : List A} → drop m all ≡ x ∷ xs → drop (suc m) all ≡ xs
  drop-suc m [] h = cc
  drop-suc zero (y ∷ ys) h = drop-zero ys ∙ cc
  drop-suc (suc m) (y ∷ ys) h = drop-suc m ys h

module _ {ℓ κ} {A : Type ℓ} {B : Type κ} (f : A → B) where
  pub length-map : (xs : List A) → length (map f xs) ≡ length xs
  length-map [] = refl
  length-map (x ∷ xs) = ap suc (length-map xs)

  pub take-map : (n : ℕ) (xs : List A) → take n (map f xs) ≡ map f (take n xs)
  take-map n [] = refl
  take-map zero (x ∷ xs) = refl
  take-map (suc n) (x ∷ xs) = ap (λ ys. f x ∷ ys) (take-map n xs)

  pub drop-map : (n : ℕ) (xs : List A) → drop n (map f xs) ≡ map f (drop n xs)
  drop-map n [] = refl
  drop-map zero (x ∷ xs) = refl
  drop-map (suc n) (x ∷ xs) = drop-map n xs

pub length-take {ℓ} : {A : Type ℓ} (n : ℕ) (xs : List A) → length (take n xs) ≡ min n (length xs)
length-take n [] = omega arith
length-take zero (x ∷ xs) = omega arith
length-take (suc n) (x ∷ xs) = omega (arith, length-take n xs)

pub below_length {ℓ} :
    {A : Type ℓ} (m : ℕ) (xs : List A) {y : A} {ys : List A} → drop m xs ≡ y ∷ ys → m < length xs
below_length m [] h = cc
below_length zero (x ∷ xs) h = omega arith
below_length (suc m) (x ∷ xs) h = omega (arith, below_length m xs h)

pub empty_of_length-le {ℓ} : {A : Type ℓ} (xs : List A) → length xs ≤ 0 → xs ≡ []
empty_of_length-le [] h = refl
empty_of_length-le (x ∷ xs) h = absurd (omega arith)

pub get_elem?_of_length-le {ℓ} :
    {A : Type ℓ} (xs : List A) (i : ℕ) → length xs ≤ i → get_elem? xs i ≡ none
get_elem?_of_length-le [] i h = refl
get_elem?_of_length-le (x ∷ xs) zero h = absurd (omega arith)
get_elem?_of_length-le (x ∷ xs) (suc i) h = get_elem?_of_length-le xs i (omega arith)

pub get_elem?-All {ℓ κ} :
    {A : Type ℓ} (P : A → Type κ) (xs : List A) (i : ℕ)
    → All P xs
    → i < length xs
    → (x : A) × (get_elem? xs i ≡ some x) × P x
get_elem?-All P [] i h lt = absurd (omega arith)
get_elem?-All P (x ∷ xs) zero (p, h) lt = (x, refl, p)
get_elem?-All P (x ∷ xs) (suc i) (p, h) lt = get_elem?-All P xs i h (omega arith)

pub All-prefix {ℓ κ} : {A : Type ℓ} (P : A → Type κ) (xs ys : List A) → All P (xs ++ ys) → All P xs
All-prefix P [] ys h = tt
All-prefix P (x ∷ xs) ys (p, h) = (p, All-prefix P xs ys h)
