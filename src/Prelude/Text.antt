-- ===== src/Prelude/Text.antt =====
-- Tests on texts, as of Rust's `str`.
use Prim.Native.Char.{code}
use Prim.Native.String.{String, [], ◌∷◌}
use Prim.Native.Nat.{ℕ, ◌+◌}
use mathlib.Core.Bool.{Bool, true, false, ◌&&◌, ◌||◌}
use mathlib.Core.Path.{◌≡◌, refl}
use getitdone.Prelude.Equality.{leb, ◌==◌, nat_eq, if◌then◌else◌}

lower : ℕ → ℕ
lower c = if leb b'A' c && leb c b'Z' then c + 32 else c

-- `str::eq_ignore_ascii_case`
unfoldable pub eq_ignore_ascii_case : String → String → Bool
unfolding lower
eq_ignore_ascii_case [] [] = true
eq_ignore_ascii_case (c ∷ s) (d ∷ t) = lower (code c) == lower (code d) && eq_ignore_ascii_case s t
eq_ignore_ascii_case [] (d ∷ t) = false
eq_ignore_ascii_case (c ∷ s) [] = false

unfoldable pub starts_with : String → String → Bool
starts_with s [] = true
starts_with [] (d ∷ t) = false
starts_with (c ∷ s) (d ∷ t) = code c == code d && starts_with s t

-- `str::contains`
unfoldable pub contains_text : String → String → Bool
unfolding starts_with
contains_text [] t = starts_with [] t
contains_text (c ∷ s) t = starts_with (c ∷ s) t || contains_text s t

eq_ignore_ascii_case_test : eq_ignore_ascii_case "location40573" "Location40573" ≡ true
unfolding eq_ignore_ascii_case nat_eq
eq_ignore_ascii_case_test = refl

contains_text_test : contains_text "MongoError: ChangeStreamNotSupported" "ChangeStream" ≡ true
unfolding contains_text nat_eq
contains_text_test = refl
