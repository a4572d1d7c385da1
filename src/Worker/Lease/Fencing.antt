-- ===== src/Worker/Lease/Fencing.antt =====
-- src/worker.rs: the claim token in the writes of a claim.
use getitdone.Prelude.{
  ℕ, ◌≡◌, ◌≢◌, inl, inr, refl, String, false, some, string_eq, nat_eq, get_elem?, Bool-cases,
}
use getitdone.Prelude.Int.{ℤ}
use getitdone.Bson.Crate.{BsonCrate}
use getitdone.Mongo.Paths.{split_dot, field_path}
use getitdone.Mongo.Server.{MongoServer}
use getitdone.Mongo.Atomic.{inner_text_of_matches}
use getitdone.Mongo.Successors.{update_one-keeps}
use getitdone.Worker.Lease.{claim_entries, claim_filter, heartbeat, mark_task_failed, complete}

module _ ⦃b : BsonCrate⦄ (m : MongoServer b) where
  open b use {Bson, Document, string, document, get}
  open m use {Db, DbError, contents, update_one, matches, applied}

  -- The document is held under this claim token.
  pub record HasToken (token : String) (d : Document) : Type 0 where
    pub state : Document
    pub stated : get "worker_state" d ≡ some (document state)
    pub token_kept : get "claim_token" state ≡ some (string token)

  -- The three writes of a claim.
  pub data LeaseWrite : Type 0 where
    beat : ℤ → LeaseWrite
    fail : String → ℤ → ℤ → LeaseWrite
    finish : Bson → ℤ → ℤ → LeaseWrite

  unfoldable pub written : LeaseWrite → String → String → String → Db → Db
  written (beat now) task worker token db = (heartbeat m task worker token now db).1
  written (fail reason now at) task worker token db =
      mark_task_failed m task worker token reason now at db
  written (finish output now at) task worker token db =
      (complete m task worker token output now at db).1

  not-matches_other :
      (task worker token current : String) (d : Document)
      → HasToken current d
      → current ≢ token
      → matches (claim_filter m task worker token) d ≡ false
  unfolding claim_filter string_eq split_dot field_path nat_eq
  not-matches_other task worker token current d held other =
      elim (Bool-cases (matches (claim_filter m task worker token) d)) [
        | inr u ↦ u
        | inl u ↦ absurd (
            other (
              inner_text_of_matches m "worker_state.claim_token" "worker_state" "claim_token" token
                current (claim_entries m task worker token) d held.state u refl refl refl refl
                held.stated held.token_kept))
      ]

  -- A claim's writes leave a document that is held under another token as it was.
  pub written_fenced :
      (w : LeaseWrite) (task worker token current : String) (db : Db) (i : ℕ) (d : Document)
      → HasToken current d
      → current ≢ token
      → get_elem? (contents db) i ≡ some d
      → get_elem? (contents (written w task worker token db)) i ≡ some d
  unfolding written heartbeat mark_task_failed complete
  written_fenced (beat now) task worker token current db i d held other h =
      update_one-keeps m _ _ db i d (not-matches_other task worker token current d held other) h
  written_fenced (fail reason now at) task worker token current db i d held other h =
      update_one-keeps m _ _ db i d (not-matches_other task worker token current d held other) h
  written_fenced (finish output now at) task worker token current db i d held other h =
      update_one-keeps m _ _ db i d (not-matches_other task worker token current d held other) h
