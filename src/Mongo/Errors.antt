-- ===== src/Mongo/Errors.antt =====
-- The driver's errors, as far as src/worker.rs and src/storage.rs look into them: the error of a
-- command, with its code and the name of the code, and all others.
use getitdone.Prelude.{String}
use getitdone.Prelude.Int.{ℤ}

pub data ErrorKind : Type 0 where
  command : ℤ → String → ErrorKind
  other : ErrorKind

-- An error with its text.
pub record MongoError : Type 0 where
  pub kind : ErrorKind
  pub text : String
