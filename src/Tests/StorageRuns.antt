-- ===== src/Tests/StorageRuns.antt =====
-- Runs of src/storage.rs, with its own tests among them.
use getitdone.Prelude.{◌≡◌, refl, false, none, some, List, [], ◌∷◌, ◌++◌, map, string_eq, nat_eq}
use getitdone.Prelude.Int.{pos, negsuc}
use getitdone.Errors.{ok}
use getitdone.Bson.Memory.{memory, Fields, end, field, int, insert_field, first_field}
use getitdone.Bson.Document.{doc}
use getitdone.Storage.{
  IndexModel, Warning, missing_claim_sort, expected_claim_sort_index, warn_if_missing_indexes,
}
use getitdone.Storage.Indexes.{
  by_status, uniqueness, standard_warnings, wanted_index, claim_sort_warnings,
  warn_if_missing_indexes_lem, warn_if_missing_indexes-updated_at,
}

expected_claim_sort_index_is_none_without_a_claim_sort : expected_claim_sort_index none ≡ none
unfolding expected_claim_sort_index
expected_claim_sort_index_is_none_without_a_claim_sort = refl

expected_claim_sort_index_adapts_to_the_configured_field :
    expected_claim_sort_index (some (field "created_at" (int (negsuc 0)) end))
    ≡ some (field "status" (int (pos 1)) (field "created_at" (int (negsuc 0)) end))
unfolding expected_claim_sort_index first_field insert_field string_eq
expected_claim_sort_index_adapts_to_the_configured_field = refl

abbrev by_updated_at : Fields
by_updated_at = field "updated_at" (int (pos 1)) end

-- All three standard indexes, the one on `task_id` without `unique`.
abbrev indexes : List IndexModel
indexes =
    record { keys = field "task_id" (int (pos 1)) end; unique = none }
    ∷ record { keys = field "status" (int (pos 1)) by_updated_at; unique = some false }
    ∷ record { keys = field "worker_state.worker_id" (int (pos 1)) end; unique = none }
    ∷ []

warn_if_missing_indexes_lem_example :
    warn_if_missing_indexes (ok (map ok indexes)) (some by_updated_at)
    ≡ uniqueness indexes
      ++ (standard_warnings indexes
          ++ claim_sort_warnings (wanted_index (some by_updated_at)) indexes)
warn_if_missing_indexes_lem_example = warn_if_missing_indexes_lem indexes (some by_updated_at)

warn_if_missing_indexes-updated_at_example :
    (others : List Warning) × (warn_if_missing_indexes (ok (map ok indexes)) (some by_updated_at)
      ≡ others ++ missing_claim_sort (doc by_status) ∷ [])
unfolding first_field
warn_if_missing_indexes-updated_at_example =
    warn_if_missing_indexes-updated_at indexes by_updated_at refl
