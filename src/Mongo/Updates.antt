-- ===== src/Mongo/Updates.antt =====
-- What an update of one document does to the documents of a collection, as MongoDB documents it.
use getitdone.Prelude.{ℕ, ◌≡◌, Bool, true, false, Option, none, some, List, [], ◌∷◌, ◌++◌, All}

-- The documents before and after an update of the first document that is chosen among those that the
-- filter selects, and the document that it left: none is chosen only if none is selected.
pub data Updated {D : Type 0} (selects : D → Bool) (change : D → D) (before after : List D)
    (r : Option D) : Type 0 where
  missed :
      r ≡ none
      → All (λ d. selects d ≡ false) before
      → after ≡ before
      → Updated selects change before after r
  hit :
      (front back : List D) (d : D)
      → selects d ≡ true
      → before ≡ front ++ d ∷ back
      → after ≡ front ++ change d ∷ back
      → r ≡ some (change d)
      → Updated selects change before after r

-- An upsert also inserts, where it updates nothing.
pub data Upserted {D : Type 0} (selects : D → Bool) (change : D → D) (creates : D → Type 0)
    (before after : List D) (inserted : Bool) (matched_count : ℕ) : Type 0 where
  updated :
      (d : D)
      → Updated selects change before after (some d)
      → inserted ≡ false
      → matched_count ≡ 1
      → Upserted selects change creates before after inserted matched_count
  created :
      (d : D)
      → All (λ x. selects x ≡ false) before
      → after ≡ before ++ d ∷ []
      → creates d
      → inserted ≡ true
      → matched_count ≡ 0
      → Upserted selects change creates before after inserted matched_count

pub record UpdateResult : Type 0 where
  pub matched_count : ℕ
  -- `upserted_id` is there.
  pub upserted : Bool
