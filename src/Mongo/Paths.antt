-- ===== src/Mongo/Paths.antt =====
-- MongoDB's dot notation: the path `"a.b"` names the field `b` of the document in the field `a`.
use Prim.Native.Char.{Char, code}
use Prim.Native.String.{String, [], ◌∷◌}
use getitdone.Prelude.{
  ◌≡◌, refl, Option, none, some, nat_eq, ◌==◌, if◌then◌else◌, Option-cases, Bool-cases, inl, inr,
  arith,
}
use mathlib.Core.List.{List}

-- The path before its first dot, and the path behind it.
unfoldable pub split_dot : String → Option (String × String)
split_dot [] = none
split_dot (c ∷ s) =
    let rest : Option (String × String) = elim (split_dot s) [
      | none ↦ none
      | some (p, r) ↦ some (c ∷ p, r)
    ] in
    if code c == b'.' then some ("", s) else rest

-- In an expression the string `"$a.b"` stands for the value at the path.
unfoldable pub field_path : String → Option String
field_path [] = none
field_path (c ∷ s) = if code c == b'$' then some s else none

-- All parts of a path.
push : Char → List String → List String
push c List.[] = List.◌∷◌ (c ∷ "") List.[]
push c (List.◌∷◌ s ss) = List.◌∷◌ (c ∷ s) ss

unfoldable pub segments : String → List String
unfolding push
segments [] = List.◌∷◌ "" List.[]
segments (c ∷ s) = let rest = segments s in if code c == b'.' then List.◌∷◌ "" rest else push c rest

push-cons :
    (c : Char) (ss : List String)
    → (p : String) × (rest : List String) × (push c ss ≡ List.◌∷◌ p rest)
unfolding push
push-cons c List.[] = (c ∷ "", List.[], refl)
push-cons c (List.◌∷◌ s ss) = (c ∷ s, ss, refl)

-- There is at least one part.
pub segments-cons :
    (k : String) → (p : String) × (rest : List String) × (segments k ≡ List.◌∷◌ p rest)
unfolding segments
segments-cons [] = ("", List.[], refl)
segments-cons (c ∷ s) = elim (Bool-cases (code c == b'.')) [
  | inl dot ↦ ("", segments s, rw dot)
  | inr other ↦ let (p, rest, e) = push-cons c (segments s) in (p, rest, rw (other, segments) e)
]

pub segments-plain : (k : String) → split_dot k ≡ none → segments k ≡ List.◌∷◌ k List.[]
unfolding segments split_dot push
segments-plain [] h = refl
segments-plain (c ∷ s) h = elim (Option-cases (split_dot s)) [
  | inl n ↦ ground (arith, segments-plain s n)
  | inr ((q, t), n) ↦ absurd (ground arith)
]

pub segments-inner :
    (k p r : String) → split_dot k ≡ some (p, r) → segments k ≡ List.◌∷◌ p (segments r)
unfolding segments split_dot push
segments-inner [] p r h = absurd (cc)
segments-inner (c ∷ s) p r h = elim (Option-cases (split_dot s)) [
  | inl n ↦ ground (arith, segments-plain s n)
  | inr ((q, t), n) ↦ ground (arith, segments-inner s q t n)
]

split_dot_test : split_dot "worker_state.claim_token" ≡ some ("worker_state", "claim_token")
unfolding split_dot nat_eq
split_dot_test = refl

split_dot_plain : split_dot "task_id" ≡ none
unfolding split_dot nat_eq
split_dot_plain = refl

field_path_test : field_path "$worker_switch_timeout" ≡ some "worker_switch_timeout"
unfolding field_path nat_eq
field_path_test = refl
