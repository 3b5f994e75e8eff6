-- ===== src/Common/Errors.antt =====
-- C++ exceptions as values. The constructor is the exception's class, with its message where
-- the code builds one from the text at hand.
use Prim.Native.String.{String}
use Prim.Native.Nat.{suc}
use mathlib.Core.Path.{◌≡◌, refl, sym, ap, ◌∙◌}
use duckdb_iceberg.Common.Lists.{length}
use mathlib.Core.Option.{Option, none, some}
use mathlib.Core.Bool.{Bool, true, false}
use mathlib.Core.List.{List, [], ◌∷◌, ◌++◌}

pub data Error : Type 0 where
  io_exception invalid_input not_implemented internal_exception binder_exception : String → Error
  missing_extension : String → Error
  -- `std::out_of_range`, from `map::at`
  out_of_range : String → Error
  -- `std::logic_error`, from `std::string(nullptr)`
  logic_error : Error
  -- memory is read that holds no value of the type
  undefined_behaviour : Error
  -- the rounds that a model's loop was given are used up
  out_of_fuel : Error

-- What a function that may throw comes back with.
pub data Result {ℓ} (A : Type ℓ) : Type ℓ where
  throw : Error → Result A
  ok : A → Result A

infixl 5 ◌>>=◌
abbrev pub ◌>>=◌ {ℓ κ} : {A : Type ℓ} {B : Type κ} → Result A → (A → Result B) → Result B
throw problem >>= next = throw problem
ok answer >>= next = next answer

-- `if (test) { throw problem; }`
abbrev pub throw_if : Bool → Error → Result (Unit {0})
throw_if false problem = ok tt
throw_if true problem = throw problem

infixl 5 ◌>>◌
abbrev pub ◌>>◌ {ℓ} : {A : Type ℓ} → Result (Unit {0}) → Result A → Result A
throw problem >> next = throw problem
ok done >> next = next

abbrev pub or_throw {ℓ} : {A : Type ℓ} → Option A → Error → Result A
or_throw none e = throw e
or_throw (some a) e = ok a

-- `if (found) { … } else { … }`, on the position or the value that was found.
abbrev pub if_found {ℓ κ} :
    {A : Type ℓ} {B : Type κ} → Option A → Result B → (A → Result B) → Result B
if_found none missing next = missing
if_found (some a) missing next = next a

-- A loop that appends one result for each element, and stops at the first exception.
abbrev pub map_result {ℓ κ} : {A : Type ℓ} {B : Type κ} → (A → Result B) → List A → Result (List B)
map_result f [] = ok []
map_result f (x ∷ xs) = f x >>= λ y. map_result f xs >>= λ ys. ok (y ∷ ys)

-- Both parts of a sequence that answers have answered.
pub >>=-eq-ok {ℓ κ} :
    {A : Type ℓ} {B : Type κ} (first : Result A) (next : A → Result B) {answer : B}
    → (first >>= next) ≡ ok answer
    → (mid : A) × (first ≡ ok mid) × (next mid ≡ ok answer)
>>=-eq-ok (throw problem) next h = cc
>>=-eq-ok (ok mid) next h = (mid, refl, h)

pub or_throw-eq-ok {ℓ} :
    {A : Type ℓ} (o : Option A) (e : Error) {a : A} → or_throw o e ≡ ok a → o ≡ some a
or_throw-eq-ok none e h = cc
or_throw-eq-ok (some a) e h = cc

pub ok-injective {ℓ} : {A : Type ℓ} {a b : A} → ok a ≡ ok b → a ≡ b
ok-injective h = cc

pub throw_if-eq-ok {ℓ} :
    {A : Type ℓ} (test : Bool) (problem : Error) (next : Result A) {answer : A}
    → (throw_if test problem >> next) ≡ ok answer
    → (test ≡ false) × (next ≡ ok answer)
throw_if-eq-ok false problem next h = (refl, h)
throw_if-eq-ok true problem next h = cc

-- The model's loops had rounds enough.
abbrev pub HasFuel {ℓ} : {A : Type ℓ} → Result A → Type ℓ
HasFuel m = ¬ (m ≡ throw out_of_fuel)

pub >>=-HasFuel {ℓ κ} :
    {A : Type ℓ} {B : Type κ} (m : Result A) (f : A → Result B)
    → HasFuel m
    → ((a : A) → HasFuel (f a))
    → HasFuel (m >>= f)
>>=-HasFuel (ok a) f h k = k a
>>=-HasFuel (throw e) f h k = λ p. h (cc)

pub >>=-ok {ℓ} : {A : Type ℓ} (m : Result A) → (m >>= λ a. ok a) ≡ m
>>=-ok (throw e) = refl
>>=-ok (ok a) = refl

module _ {ℓ κ} {A : Type ℓ} {B : Type κ} where
  pub >>=-assoc {μ} :
      {C : Type μ} (m : Result A) (f : A → Result B) (g : B → Result C)
      → (m >>= f >>= g) ≡ (m >>= λ a. f a >>= g)
  >>=-assoc (throw e) f g = refl
  >>=-assoc (ok a) f g = refl

  -- The first result matters only where it answers.
  pub >>=-congr :
      (m : Result A) (f g : A → Result B) → ((a : A) → m ≡ ok a → f a ≡ g a) → (m >>= f) ≡ (m >>= g)
  >>=-congr (throw e) f g h = refl
  >>=-congr (ok a) f g h = h a refl

pub >>=-chain {ℓ κ μ ν} :
    {A : Type ℓ} {B : Type κ} {C : Type μ} {D : Type ν} (m : Result A) (f : A → Result B)
    (g : B → Result C) (h : C → Result D) (k : A → Result D)
    → ((a : A) → m ≡ ok a → (f a >>= g >>= h) ≡ k a)
    → (m >>= f >>= g >>= h) ≡ (m >>= k)
>>=-chain (throw e) f g h k same = refl
>>=-chain (ok a) f g h k same = same a refl

module _ {ℓ κ} {A : Type ℓ} {B : Type κ} where
  pub length-map_result :
      (f : A → Result B) (xs : List A) (ys : List B)
      → map_result f xs ≡ ok ys
      → length ys ≡ length xs
  length-map_result f [] ys h = let g : ys ≡ [] = cc in rw g
  length-map_result f (x ∷ xs) ys h =
      let (y, e, h') = >>=-eq-ok (f x) _ h in
      let (rest, k, h'') = >>=-eq-ok (map_result f xs) _ h' in
      let g : ys ≡ y ∷ rest = cc in rw g (ap suc (length-map_result f xs rest k))

  pub map_result-append :
      (f : A → Result B) (xs ys : List A)
      → map_result f (xs ++ ys)
        ≡ (map_result f xs >>= λ us. map_result f ys >>= λ vs. ok (us ++ vs))
  map_result-append f [] ys = sym (>>=-ok (map_result f ys))
  map_result-append f (x ∷ xs) ys =
      >>=-congr (f x) _ _ (λ y fx. rw (map_result-append f xs ys) (
        >>=-assoc (map_result f xs) _ _
        ∙ >>=-congr (map_result f xs) _ _ (λ us h. >>=-assoc (map_result f ys) _ _)
        ∙ sym (>>=-assoc (map_result f xs) _ _)))
      ∙ sym (>>=-assoc (f x) _ _)

pub ok-HasFuel {ℓ} : {A : Type ℓ} (a : A) → HasFuel (ok a)
ok-HasFuel a = λ p. cc

module _ {ℓ} {A : Type ℓ} where
  pub Bool-case-HasFuel :
      (b : Bool) (x y : Result A)
      → HasFuel x
      → HasFuel y
      → HasFuel (elim b [ true ↦ x | false ↦ y ])
  Bool-case-HasFuel true x y h k = h
  Bool-case-HasFuel false x y h k = k

  pub Option-case-HasFuel {κ} :
      {B : Type κ} (o : Option B) (x : Result A) (f : B → Result A)
      → HasFuel x
      → ((b : B) → o ≡ some b → HasFuel (f b))
      → HasFuel (if_found o x f)
  Option-case-HasFuel none x f h k = h
  Option-case-HasFuel (some b) x f h k = k b refl
