-- ===== src/Errors.antt =====
-- src/error.rs: `RequestError` with its messages, and the results that carry it.
use Prim.Native.String.{◌++◌ as ◌<>◌}
use getitdone.Prelude.{String, Option, none, some, ◌≡◌, refl, ◌⊎◌, inl, inr}

pub data RequestError : Type 0 where
  duplicate : String → RequestError
  timeout worker_gone worker_timeout : RequestError
  payload_format : String → RequestError
  task_failed : String → RequestError
  database : String → RequestError

-- `Display`, by the `#[error(…)]` attributes.
unfoldable pub to_string : RequestError → String
to_string (duplicate task_id) = "duplicate idempotency key for task " <> task_id
to_string timeout = "caller timed out waiting for response"
to_string worker_gone = "worker crashed or disconnected before responding"
to_string worker_timeout = "no worker picked up the task before timeout"
to_string (payload_format field) = "payload format mismatch in " <> field
to_string (task_failed reason) = "task failed: " <> reason
to_string (database text) = "database error: " <> text

-- `Result<A, RequestError>` is `Result RequestError A`.
pub data Result {ℓ} (E : Type 0) (A : Type ℓ) : Type ℓ where
  ok : A → Result E A
  err : E → Result E A

infixl 5 ◌>>=◌
abbrev pub ◌>>=◌ {ℓ κ} :
    {E : Type 0} {A : Type ℓ} {B : Type κ} → Result E A → (A → Result E B) → Result E B
ok a >>= f = f a
err e >>= f = err e

-- `ok_or` and `map_err`
abbrev pub ok_or {ℓ} : {E : Type 0} {A : Type ℓ} → E → Option A → Result E A
ok_or e none = err e
ok_or e (some a) = ok a

abbrev pub map_err {ℓ} : {E F : Type 0} {A : Type ℓ} → (E → F) → Result E A → Result F A
map_err f (ok a) = ok a
map_err f (err e) = err (f e)

pub Result-cases {ℓ} :
    {E : Type 0} {A : Type ℓ} (r : Result E A) → ((a : A) × (r ≡ ok a)) ⊎ ((e : E) × (r ≡ err e))
Result-cases (ok a) = inl (a, refl)
Result-cases (err e) = inr (e, refl)
