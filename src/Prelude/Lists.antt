-- ===== src/Prelude/Lists.antt =====
-- Lists measured by native numbers, under the library's names.
use Prim.Native.Nat.{ℕ, zero, suc, ◌+◌}
use mathlib.Core.Option.{Option, none, some, some-injective, none-ne-some}
use mathlib.Core.Path.{◌≡◌, refl, subst}
use mathlib.Core.Logic.{◌⊎◌, inl, inr}
use mathlib.Core.List.{List, [], ◌∷◌, ◌++◌}
use mathlib.Core.Bool.{Bool, true, false, ◌||◌, ◌&&◌}
use native.Mathlib.Omega.{arith}

module _ {ℓ} {A : Type ℓ} where
  abbrev pub length : List A → ℕ
  length [] = 0
  length (x ∷ xs) = suc (length xs)

  abbrev pub get_elem? : List A → ℕ → Option A
  get_elem? [] i = none
  get_elem? (x ∷ xs) zero = some x
  get_elem? (x ∷ xs) (suc i) = get_elem? xs i

  pub length-append : (xs ys : List A) → length (xs ++ ys) ≡ length xs + length ys
  length-append [] ys = omega arith
  length-append (x ∷ xs) ys = omega (arith, length-append xs ys)

abbrev pub All {ℓ κ} : {A : Type ℓ} → (A → Type κ) → List A → Type κ
All P [] = Unit
All P (x ∷ xs) = P x × All P xs

-- Two lists that differ in one element agree elsewhere.
pub get_elem?-replace {ℓ} :
    {A : Type ℓ} (front back : List A) (x y d : A) (i : ℕ)
    → get_elem? (front ++ x ∷ back) i ≡ some d
    → (x ≡ d) ⊎ (get_elem? (front ++ y ∷ back) i ≡ some d)
get_elem?-replace [] back x y d zero h = inl (some-injective _ _ h)
get_elem?-replace [] back x y d (suc i) h = inr h
get_elem?-replace (z ∷ front) back x y d zero h = inr h
get_elem?-replace (z ∷ front) back x y d (suc i) h = get_elem?-replace front back x y d i h

pub get_elem?-append_self {ℓ} :
    {A : Type ℓ} (front back : List A) (x : A)
    → get_elem? (front ++ x ∷ back) (length front) ≡ some x
get_elem?-append_self [] back x = refl
get_elem?-append_self (z ∷ front) back x = get_elem?-append_self front back x

pub All-get_elem? {ℓ κ} :
    {A : Type ℓ} (P : A → Type κ) (xs : List A) (i : ℕ) (d : A)
    → All P xs
    → get_elem? xs i ≡ some d
    → P d
All-get_elem? P [] i d a h = absurd (none-ne-some d h)
All-get_elem? P (x ∷ xs) zero d a h = subst P (some-injective _ _ h) a.0
All-get_elem? P (x ∷ xs) (suc i) d a h = All-get_elem? P xs i d a.1 h

module _ {ℓ} {A : Type ℓ} where
  abbrev pub any : (A → Bool) → List A → Bool
  any p [] = false
  any p (x ∷ xs) = p x || any p xs

  abbrev pub every : (A → Bool) → List A → Bool
  every p [] = true
  every p (x ∷ xs) = p x && every p xs
