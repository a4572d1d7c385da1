-- ===== src/Prelude/Sets.antt =====
-- `HashSet` as a list, whose order nothing depends on.
use mathlib.Core.Path.{◌≡◌}
use mathlib.Core.Bool.{Bool, true, false}
use mathlib.Core.List.{List, [], ◌∷◌}
use native.Mathlib.Omega.{arith}
use getitdone.Prelude.Equality.{Eq, ◌==◌, if◌then◌else◌, contains}

module _ {ℓ} {A : Type ℓ} where
  abbrev pub is_empty : List A → Bool
  is_empty [] = true
  is_empty (x ∷ xs) = false

module _ {ℓ} {A : Type ℓ} ⦃e : Eq A⦄ where
  -- `insert`
  unfoldable pub add : A → List A → List A
  add a xs = if contains xs a then xs else a ∷ xs

  -- `remove`
  unfoldable pub discard : A → List A → List A
  discard a [] = []
  discard a (x ∷ xs) = let rest = discard a xs in if x == a then rest else x ∷ rest

  pub contains-add :
      (b a : A) (xs : List A) → contains (add a xs) b ≡ (if a == b then true else contains xs b)
  unfolding add
  contains-add b a xs = ground arith

  pub not-is_empty-add : (a : A) (xs : List A) → is_empty (add a xs) ≡ false
  unfolding add
  not-is_empty-add a [] = ground arith
  not-is_empty-add a (x ∷ xs) = ground arith

  pub contains-discard :
      (b a : A) (xs : List A)
      → contains (discard a xs) b ≡ (if a == b then false else contains xs b)
  unfolding discard
  contains-discard b a [] = ground arith
  contains-discard b a (x ∷ xs) = ground (arith, contains-discard b a xs)

  -- No element stands in the list twice.
  abbrev pub IsDistinct : List A → Type ℓ
  IsDistinct [] = Unit
  IsDistinct (x ∷ xs) = (contains xs x ≡ false) × IsDistinct xs

  pub add-IsDistinct : (a : A) (xs : List A) → IsDistinct xs → IsDistinct (add a xs)
  unfolding add
  add-IsDistinct a xs d = ground arith

  pub discard-IsDistinct : (a : A) (xs : List A) → IsDistinct xs → IsDistinct (discard a xs)
  unfolding discard
  discard-IsDistinct a [] d = tt
  discard-IsDistinct a (x ∷ xs) d =
      ground (arith, discard-IsDistinct a xs d.1, contains-discard x a xs)
