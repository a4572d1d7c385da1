-- ===== src/Storage/Indexes.antt =====
-- src/storage.rs: the flags of `warn_if_missing_indexes`, against what the list of indexes has.
use getitdone.Prelude.{
  ◌≡◌, ◌∙◌, refl, sym, String, Bool, true, false, ◌&&◌, ◌||◌, ◌++◌, not, Option, none, some, List,
  [], ◌∷◌, map, arith, Bool-cases, Option-cases, inl, inr, string_eq,
}
use mathlib.Core.List.{append_assoc}
use getitdone.Prelude.Lists.{any}
use getitdone.Prelude.Int.{pos}
use getitdone.Errors.{ok}
use getitdone.Config.{unwrap_or}
use getitdone.Bson.Crate.{BsonCrate}
use getitdone.Bson.Document.{doc, get-doc, last_value}
use getitdone.Storage.{
  IndexModel, Warning, missing_task_id, missing_status, missing_worker_state, missing_claim_sort,
  not_unique, expected_claim_sort_index, Found, is_expected, inspect_keys, uniqueness_warnings,
  inspect_indexes, warn_if, missing_claim_sort_warnings, missing_warnings, nothing_found,
  warn_if_missing_indexes,
}

module _ ⦃b : BsonCrate⦄ where
  open b use {
    Bson, Document, int32, get, insert, new, first, document_eq, document_eq_same, document_eq_none,
  }

  -- The keys of the three indexes that every deployment wants, as the documentation has them.
  abbrev pub by_task_id : List (String × Bson)
  by_task_id = ("task_id", int32 (pos 1)) ∷ []

  abbrev pub by_status : List (String × Bson)
  by_status = ("status", int32 (pos 1)) ∷ ("updated_at", int32 (pos 1)) ∷ []

  abbrev pub by_worker : List (String × Bson)
  by_worker = ("worker_state.worker_id", int32 (pos 1)) ∷ []

  -- Two key documents that differ by a field are not both equal to a third.
  apart :
      (es fs : List (String × Bson)) (field : String) (v : Bson) (keys : Document)
      → last_value field es ≡ none
      → last_value field fs ≡ some v
      → document_eq keys (doc es) ≡ true
      → document_eq keys (doc fs) ≡ false
  apart es fs field v keys n s h = elim (Bool-cases (document_eq keys (doc fs))) [
    | inr u ↦ u
    | inl u ↦
        let same : document_eq (doc es) (doc fs) ≡ true =
          sym (document_eq_same keys (doc es) (doc fs) h) ∙ u in
        let absent : get field (doc fs) ≡ none =
          document_eq_none field (doc es) (doc fs) same (get-doc field es ∙ n) in
        absurd (cc (absent, get-doc field fs, s))
  ]

  module _ (keys : Document) where
    task_id-status :
        document_eq keys (doc by_task_id) ≡ true → document_eq keys (doc by_status) ≡ false
    unfolding string_eq
    task_id-status h = apart by_task_id by_status "status" (int32 (pos 1)) keys refl refl h

    task_id-worker_state :
        document_eq keys (doc by_task_id) ≡ true → document_eq keys (doc by_worker) ≡ false
    unfolding string_eq
    task_id-worker_state h =
        apart by_task_id by_worker "worker_state.worker_id" (int32 (pos 1)) keys refl refl h

    status-worker_state :
        document_eq keys (doc by_status) ≡ true → document_eq keys (doc by_worker) ≡ false
    unfolding string_eq
    status-worker_state h =
        apart by_status by_worker "worker_state.worker_id" (int32 (pos 1)) keys refl refl h

  -- What the list has.
  abbrev pub is_unique_task_id : IndexModel → Bool
  is_unique_task_id i = document_eq i.keys (doc by_task_id) && unwrap_or false i.unique

  abbrev pub is_checked : Document → Bool
  is_checked keys =
      document_eq keys (doc by_task_id)
      || document_eq keys (doc by_status)
      || document_eq keys (doc by_worker)

  abbrev pub serves_sort : Option Document → IndexModel → Bool
  serves_sort none i = false
  serves_sort (some x) i = document_eq i.keys x && not (is_checked i.keys)

  -- The flags behind the loop, for a list that was read to its end.
  abbrev flags : Option Document → List IndexModel → Found → Found
  flags expected indexes f = record {
    task_id_unique = f.task_id_unique || any is_unique_task_id indexes;
    status_updated = f.status_updated || any (λ i. document_eq i.keys (doc by_status)) indexes;
    worker_state = f.worker_state || any (λ i. document_eq i.keys (doc by_worker)) indexes;
    claim_sort_index = f.claim_sort_index || any (serves_sort expected) indexes;
  }

  -- A warning that is due if something is not there.
  abbrev pub unless : Bool → Warning → List Warning
  unless true w = []
  unless false w = w ∷ []

  -- One warning for each index on `task_id` for which the server does not say that it is unique.
  abbrev pub uniqueness : List IndexModel → List Warning
  uniqueness [] = []
  uniqueness (i ∷ is) =
      unless (not (document_eq i.keys (doc by_task_id)) || is_unique_task_id i) not_unique
      ++ uniqueness is

  -- The index that a claim sort wants: `status`, then the first field of the sort, in its direction.
  abbrev pub wanted_by : Option (String × Bson) → Option Document
  wanted_by none = none
  wanted_by (some (field, direction)) =
      some (doc (("status", int32 (pos 1)) ∷ (field, direction) ∷ []))

  abbrev pub wanted_index : Option Document → Option Document
  wanted_index none = none
  wanted_index (some sort) = wanted_by (first sort)

  wanted_index-expected :
      (sort : Option Document) → expected_claim_sort_index sort ≡ wanted_index sort
  unfolding expected_claim_sort_index
  wanted_index-expected none = refl
  wanted_index-expected (some sort) = elim (Option-cases (first sort)) [
    | inl n ↦ rw (n, wanted_index) refl
    | inr (entry, n) ↦ rw (n, wanted_index) refl
  ]

  uniqueness_warnings-unless :
      (i : IndexModel)
      → uniqueness_warnings i
        ≡ unless (not (document_eq i.keys (doc by_task_id)) || is_unique_task_id i) not_unique
  unfolding uniqueness_warnings
  uniqueness_warnings-unless i = ground arith

  warn_if-unless : (c : Bool) (w : Warning) → warn_if (not c) w ≡ unless c w
  unfolding warn_if
  warn_if-unless true w = refl
  warn_if-unless false w = refl

  inspect_keys-flags :
      (expected : Option Document) (i : IndexModel) (is : List IndexModel) (f : Found)
      → flags expected is (inspect_keys expected i f) ≡ flags expected (i ∷ is) f
  unfolding inspect_keys is_expected
  inspect_keys-flags none i is f =
      ground (arith, task_id-status i.keys, task_id-worker_state i.keys, status-worker_state i.keys)
  inspect_keys-flags (some x) i is f =
      ground (arith, task_id-status i.keys, task_id-worker_state i.keys, status-worker_state i.keys)

  inspect_indexes-flags :
      (expected : Option Document) (indexes : List IndexModel) (f : Found)
      → inspect_indexes expected (map ok indexes) f
        ≡ (uniqueness indexes, some (flags expected indexes f))
  unfolding inspect_indexes
  inspect_indexes-flags expected [] f = ground arith
  inspect_indexes-flags expected (i ∷ is) f = rw (
    inspect_indexes-flags expected is (inspect_keys expected i f),
    inspect_keys-flags expected i is f,
    uniqueness_warnings-unless i,
  )

  -- The warning about the index of the claim sort, where an index that is one of the three others does
  -- not count.
  abbrev pub claim_sort_warnings : Option Document → List IndexModel → List Warning
  claim_sort_warnings none indexes = []
  claim_sort_warnings (some x) indexes =
      unless (any (serves_sort (some x)) indexes) (missing_claim_sort x)

  -- The warnings about the three indexes that every deployment wants.
  abbrev pub standard_warnings : List IndexModel → List Warning
  standard_warnings indexes =
      unless (any is_unique_task_id indexes) missing_task_id
      ++ (unless (any (λ i. document_eq i.keys (doc by_status)) indexes) missing_status
          ++ unless (any (λ i. document_eq i.keys (doc by_worker)) indexes) missing_worker_state)

  regroup : (x y z w : List Warning) → x ++ (y ++ (z ++ w)) ≡ (x ++ (y ++ z)) ++ w
  regroup x y z w = simp append_assoc

  missing_claim_sort_warnings-flags :
      (expected : Option Document) (indexes : List IndexModel)
      → missing_claim_sort_warnings expected (flags expected indexes nothing_found)
        ≡ claim_sort_warnings expected indexes
  unfolding missing_claim_sort_warnings
  missing_claim_sort_warnings-flags none indexes = refl
  missing_claim_sort_warnings-flags (some x) indexes =
      warn_if-unless (any (serves_sort (some x)) indexes) (missing_claim_sort x)

  missing_warnings-flags :
      (expected : Option Document) (indexes : List IndexModel)
      → missing_warnings expected (some (flags expected indexes nothing_found))
        ≡ standard_warnings indexes ++ claim_sort_warnings expected indexes
  unfolding missing_warnings
  missing_warnings-flags expected indexes =
      rw
        (
          warn_if-unless (any is_unique_task_id indexes) missing_task_id,
          warn_if-unless (any (λ i. document_eq i.keys (doc by_status)) indexes) missing_status,
          warn_if-unless (any (λ i. document_eq i.keys (doc by_worker)) indexes)
              missing_worker_state,
          missing_claim_sort_warnings-flags expected indexes,
        )
        (regroup (unless (any is_unique_task_id indexes) missing_task_id)
          (unless (any (λ i. document_eq i.keys (doc by_status)) indexes) missing_status)
          (unless (any (λ i. document_eq i.keys (doc by_worker)) indexes) missing_worker_state)
          (claim_sort_warnings expected indexes))

  -- Where the list of indexes is read to its end, the warnings are, in this order: one for each index on
  -- `task_id` that is not unique, one each if the unique index on `task_id`, the index on `status` and
  -- `updated_at`, or the index on `worker_state.worker_id` is not in the list, and one if the index on
  -- `status` and the first field of the claim sort is not in the list apart from these three.
  pub warn_if_missing_indexes_lem :
      (indexes : List IndexModel) (claim_sort : Option Document)
      → warn_if_missing_indexes (ok (map ok indexes)) claim_sort
        ≡ uniqueness indexes
          ++ (standard_warnings indexes ++ claim_sort_warnings (wanted_index claim_sort) indexes)
  unfolding warn_if_missing_indexes
  warn_if_missing_indexes_lem indexes claim_sort = rw (
    wanted_index-expected claim_sort,
    inspect_indexes-flags (wanted_index claim_sort) indexes nothing_found,
    missing_warnings-flags (wanted_index claim_sort) indexes,
  )

  never_serves :
      (indexes : List IndexModel) → any (serves_sort (some (doc by_status))) indexes ≡ false
  never_serves [] = refl
  never_serves (i ∷ is) = ground (arith, never_serves is)

  pub warn_if_missing_indexes-updated_at :
      (indexes : List IndexModel) (sort : Document)
      → first sort ≡ some ("updated_at", int32 (pos 1))
      → (others : List Warning) × (warn_if_missing_indexes (ok (map ok indexes)) (some sort)
          ≡ others ++ missing_claim_sort (doc by_status) ∷ [])
  warn_if_missing_indexes-updated_at indexes sort h = (
    uniqueness indexes ++ standard_warnings indexes,
    warn_if_missing_indexes_lem indexes (some sort)
        ∙ rw (wanted_index, h, never_serves indexes)
            (sym (
              append_assoc (uniqueness indexes) (standard_warnings indexes)
                (missing_claim_sort (doc by_status) ∷ []))),
  )
