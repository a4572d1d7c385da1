-- ===== src/Prelude/Sorted.antt =====
-- `BTreeMap` with `i64` keys, as an association list in ascending order of its keys.
use mathlib.Core.Path.{◌≡◌, refl, subst}
use mathlib.Core.Bool.{true}
use mathlib.Core.Option.{Option, none, some}
use mathlib.Core.List.{List, [], ◌∷◌, map}
use native.Mathlib.Omega.{arith}
use getitdone.Prelude.Equality.{◌==◌, if◌then◌else◌, contains}
use getitdone.Prelude.Int.{ℤ, ◌<ℤ◌, ltb_ℤ, int_eq, eq_of_parts}

module _ {ℓ} {V : Type ℓ} where
  -- `get`
  unfoldable pub find : ℤ → List (ℤ × V) → Option V
  find x [] = none
  find x ((y, v) ∷ m) = if y == x then some v else find x m

  -- `insert`: an old entry of the key is replaced, a new one goes to its place in the order.
  unfoldable pub put : ℤ → V → List (ℤ × V) → List (ℤ × V)
  put x v [] = (x, v) ∷ []
  put x v ((y, w) ∷ m) =
      if y == x then (x, v) ∷ m else if ltb_ℤ x y then (x, v) ∷ (y, w) ∷ m else (y, w) ∷ put x v m

  -- `remove`
  unfoldable pub delete : ℤ → List (ℤ × V) → List (ℤ × V)
  delete x [] = []
  delete x ((y, w) ∷ m) = let rest = delete x m in if y == x then rest else (y, w) ∷ rest

  abbrev pub keys : List (ℤ × V) → List ℤ
  keys = map (λ e. e.0)

  -- The keys ascend, so that each occurs once.
  abbrev pub Above : ℤ → List (ℤ × V) → Type 0
  Above x [] = Unit
  Above x ((y, w) ∷ m) = (x <ℤ y) × Above x m

  abbrev pub IsSorted : List (ℤ × V) → Type 0
  IsSorted [] = Unit
  IsSorted ((y, w) ∷ m) = Above y m × IsSorted m

  Above-trans : (x y : ℤ) (m : List (ℤ × V)) → x <ℤ y → Above y m → Above x m
  Above-trans x y [] h a = tt
  Above-trans x y ((z, w) ∷ m) h a = (omega arith, Above-trans x y m h a.1)

  find-Above-none : (x : ℤ) (m : List (ℤ × V)) → Above x m → find x m ≡ none
  unfolding find
  find-Above-none x [] a = refl
  find-Above-none x ((y, w) ∷ m) a = ground (arith, find-Above-none x m a.1)

  pub find-put :
      (z x : ℤ) (v : V) (m : List (ℤ × V))
      → find z (put x v m) ≡ (if x == z then some v else find z m)
  unfolding find put
  find-put z x v [] = refl
  find-put z x v ((y, w) ∷ m) = ground (arith, find-put z x v m)

  pub find-delete :
      (z x : ℤ) (m : List (ℤ × V)) → find z (delete x m) ≡ (if x == z then none else find z m)
  unfolding find delete
  find-delete z x [] = ground arith
  find-delete z x ((y, w) ∷ m) = ground (arith, find-delete z x m)

  Above-put : (z x : ℤ) (v : V) (m : List (ℤ × V)) → z <ℤ x → Above z m → Above z (put x v m)
  unfolding put
  Above-put z x v [] h a = (h, tt)
  Above-put z x v ((y, w) ∷ m) h a = ground (arith, Above-put z x v m h a.1)

  Above-delete : (z x : ℤ) (m : List (ℤ × V)) → Above z m → Above z (delete x m)
  unfolding delete
  Above-delete z x [] a = tt
  Above-delete z x ((y, w) ∷ m) a = ground (arith, Above-delete z x m a.1)

  pub put-IsSorted : (x : ℤ) (v : V) (m : List (ℤ × V)) → IsSorted m → IsSorted (put x v m)
  unfolding put
  put-IsSorted x v [] s = (tt, tt)
  put-IsSorted x v ((y, w) ∷ m) s = ground (
    arith,
    λ (e : y ≡ x). subst (λ z. Above z m) e s.0,
    Above-trans x y m,
    Above-put y x v m,
    put-IsSorted x v m s.1,
    eq_of_parts x y,
  )

  pub delete-IsSorted : (x : ℤ) (m : List (ℤ × V)) → IsSorted m → IsSorted (delete x m)
  unfolding delete
  delete-IsSorted x [] s = tt
  delete-IsSorted x ((y, w) ∷ m) s = ground (arith, Above-delete y x m s.0, delete-IsSorted x m s.1)

  -- A key that is found is listed.
  pub contains-keys_of_find :
      (x : ℤ) (v : V) (m : List (ℤ × V)) → find x m ≡ some v → contains (keys m) x ≡ true
  unfolding find
  contains-keys_of_find x v [] h = ground arith
  contains-keys_of_find x v ((y, w) ∷ m) h = ground (arith, contains-keys_of_find x v m)

  -- What is found below a bound of the keys lies above it.
  pub find-Above : (x y : ℤ) (v : V) (m : List (ℤ × V)) → Above x m → find y m ≡ some v → x <ℤ y
  unfolding find
  find-Above x y v [] a h = absurd (ground arith)
  find-Above x y v ((z, w) ∷ m) a h = ground (arith, find-Above x y v m a.1)
