-- ===== src/Worker/Claim/Staleness.antt =====
-- src/worker.rs: the condition of the stale filter, and the lease of a task: its last heartbeat and the
-- timeout that counts.
use getitdone.Prelude.{
  ℕ, ◌≡◌, refl, ◌∙◌, String, true, Option, none, some, [], ◌∷◌, string_eq, nat_eq, or_else,
}
use getitdone.Prelude.Int.{ℤ, ◌+ℤ◌, leb_ℤ, IsI64}
use getitdone.Time.{wrapped_millis}
use getitdone.Bson.Crate.{BsonCrate}
use getitdone.Bson.Document.{doc}
use getitdone.Config.{unwrap_or}
use getitdone.Mongo.Paths.{split_dot, field_path}
use getitdone.Mongo.Server.{MongoServer}
use getitdone.Worker.Claim.{stale_expr}

module _ ⦃b : BsonCrate⦄ (m : MongoServer b) where
  open b use {Bson, Document, string, int64, date_time, document, array, get}
  open m use {Db, contents, holds, eval, matches}

  -- A field that is a 64-bit number, or is not there.
  abbrev pub IsMillis : String → Document → Option ℤ → Type 0
  IsMillis k d none = get k d ≡ none
  IsMillis k d (some n) = get k d ≡ some (int64 n)

  -- A task's document with its lease: the last heartbeat, and the timeouts that the task and its claim
  -- have.
  pub record IsLeased (heartbeat_at : ℤ) (own given : Option ℤ) (d : Document) : Type 0 where
    pub state : Document
    pub stated : get "worker_state" d ≡ some (document state)
    pub beating : get "heartbeat_at" state ≡ some (date_time heartbeat_at)
    pub timed : IsMillis "worker_switch_timeout" d own
    pub claimed : IsMillis "switch_timeout_ms" state given

  -- The timeout that counts: the task's own, or else that of its claim, or else the worker's.
  abbrev pub lease_millis : Option ℤ → Option ℤ → ℕ → ℤ
  lease_millis own given fallback = unwrap_or (wrapped_millis fallback) (or_else own given)

  -- `$ifNull` of a number that may be absent.
  if_absent :
      (x y : Bson) (d : Document) (n : ℤ)
      → b.is_null (eval d x) ≡ true
      → eval d y ≡ int64 n
      → eval d (document (doc (("$ifNull", array (x ∷ y ∷ [])) ∷ []))) ≡ int64 n
  if_absent x y d n h e = m.eval-if_null x y d h ∙ e

  if_present :
      (x y : Bson) (d : Document) (n : ℤ)
      → eval d x ≡ int64 n
      → eval d (document (doc (("$ifNull", array (x ∷ y ∷ [])) ∷ []))) ≡ int64 n
  if_present x y d n e = m.eval-if_value x y d (rw e (b.is_null-int64 n)) ∙ e

  module _ (heartbeat_at now : ℤ) (fallback : ℕ) (d : Document) where
    abbrev fallback_expr : Bson
    fallback_expr = int64 (wrapped_millis fallback)

    given_expr : Bson
    given_expr = document (
        doc
          (("$ifNull", array (string "$worker_state.switch_timeout_ms" ∷ fallback_expr ∷ [])) ∷ []))

    eval-given :
        (own given : Option ℤ)
        → IsLeased heartbeat_at own given d
        → eval d given_expr ≡ int64 (lease_millis none given fallback)
    unfolding given_expr field_path split_dot nat_eq
    eval-given own none v =
        if_absent _ fallback_expr d _
          (m.eval-inner_absent "$worker_state.switch_timeout_ms" _ "worker_state"
            "switch_timeout_ms" d v.state refl refl refl v.stated v.claimed)
          (m.eval-int64 (wrapped_millis fallback) d)
    eval-given own (some n) v = if_present _ fallback_expr d n (
        m.eval-inner "$worker_state.switch_timeout_ms" _ "worker_state" "switch_timeout_ms"
          (int64 n) d v.state refl refl refl v.stated v.claimed)

    abbrev timeout_expr : Bson
    timeout_expr =
        document (doc (("$ifNull", array (string "$worker_switch_timeout" ∷ given_expr ∷ [])) ∷ []))

    eval-timeout :
        (own given : Option ℤ)
        → IsLeased heartbeat_at own given d
        → eval d timeout_expr ≡ int64 (lease_millis own given fallback)
    unfolding field_path split_dot nat_eq
    eval-timeout none given v =
        if_absent _ given_expr d _
          (m.eval-absent "$worker_switch_timeout" "worker_switch_timeout" d refl refl v.timed)
          (eval-given none given v)
    eval-timeout (some n) given v = if_present _ given_expr d n (
        m.eval-field "$worker_switch_timeout" "worker_switch_timeout" (int64 n) d refl refl v.timed)

    -- The condition of the stale filter is that the deadline has passed.
    pub holds-stale_expr :
        (own given : Option ℤ)
        → IsLeased heartbeat_at own given d
        → IsI64 (heartbeat_at +ℤ lease_millis own given fallback)
        → holds "$expr" (stale_expr m now fallback) d
          ≡ leb_ℤ (heartbeat_at +ℤ lease_millis own given fallback) now
    unfolding stale_expr given_expr field_path split_dot nat_eq
    holds-stale_expr own given v range = m.holds-expr _ d _ (
        m.eval-lte _ _ d _ now
          (m.eval-add (string "$worker_state.heartbeat_at") timeout_expr d heartbeat_at _
            (m.eval-inner "$worker_state.heartbeat_at" _ "worker_state" "heartbeat_at"
              (date_time heartbeat_at) d v.state refl refl refl v.stated v.beating)
            (eval-timeout own given v) range)
          (m.eval-date_time now d))
