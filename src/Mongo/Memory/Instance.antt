-- ===== src/Mongo/Memory/Instance.antt =====
-- The server in memory as a value of the parameter.
use getitdone.Prelude.{◌≡◌, ◌≢◌, ap, inl, String, none, string_eq, nat_eq}
use getitdone.Bson.Memory.{memory}
use getitdone.Mongo.Paths.{field_path}
use getitdone.Mongo.Server.{MongoServer}
use getitdone.Mongo.Memory.Query
use getitdone.Mongo.Memory.Query.Entries
use getitdone.Mongo.Memory.Query.Conditions
use getitdone.Mongo.Memory.Query.Expressions
use getitdone.Mongo.Memory.Change
use getitdone.Mongo.Memory.Laws

pub not_expr : (k : String) → field_path k ≡ none → k ≢ "$expr"
unfolding field_path nat_eq
not_expr k h e = absurd (cc (ap field_path e))

abbrev pub server : MongoServer memory
server = record {
  Db = Laws.Db;
  DbError = Laws.DbError;
  error_text = Laws.error_text;
  is_duplicate_key = Laws.is_duplicate_key;
  contents = λ db. db.docs;
  find_one_and_update = Laws.find_one_and_update;
  update_one = Laws.update_one;
  upsert_one = Laws.upsert_one;
  find_one = Laws.find_one;
  find = Laws.find;
  matches = Query.matches;
  holds = Query.holds;
  reaches = Query.reaches;
  matches_iff = Entries.matches_iff;
  holds-string = λ k s d p. Conditions.holds-text k s d;
  holds-nin = λ k t ss d f p g. Conditions.holds_nin k t ss d p (not_expr k f) g;
  holds-exists = λ k v d f p g. Conditions.holds_exists k v d p (not_expr k f) g;
  holds-present = λ k v d f p g. Conditions.holds_present k v d p (not_expr k f) g;
  holds-present_inner = λ k p c d e f r q g.
      Conditions.holds_present_inner k p c d e q (not_expr k f) (not_expr c r) g;
  holds-in = λ k t ss d f p g. Conditions.holds_in k t ss d p (not_expr k f) g;
  holds-or = Entries.holds_or;
  holds-and = Entries.holds_and;
  holds-object_id = λ k i j d f p g. Conditions.holds_oid k i j d p g;
  reaches-plain = Conditions.reaches_plain_lem;
  reaches-absent = Conditions.reaches_absent;
  reaches-nested = Conditions.reaches_nested;
  eval = Query.eval;
  holds-expr = Expressions.holds_expr;
  eval-int64 = λ n d. Expressions.eval_long n d;
  eval-date_time = λ n d. Expressions.eval_time n d;
  eval-field = Expressions.eval_field;
  eval-absent = Expressions.eval_absent;
  eval-inner = Expressions.eval_inner;
  eval-inner_absent = Expressions.eval_inner_absent;
  eval-lte = Expressions.eval_lte;
  eval-add = λ x y d a n p q r. Expressions.eval_add x y d a n p q;
  eval-if_null = Expressions.eval_if_null;
  eval-if_value = Expressions.eval_if_value;
  eval-string = Expressions.eval_literal;
  eval-ne = Expressions.eval_ne;
  eval-type_get_field = λ x k v d e f p g. Expressions.eval_type_get_field x k v d e p g;
  passes = Query.passes;
  passes-nil = Entries.passes-nil;
  passes-match = Entries.passes-match;
  applied = Change.applied;
  applied-set = Change.applied-set;
  applied-set_path = λ k p c v d e q r g. Change.applied-set_path k p c v d e q g;
  applied-unset = Change.applied-unset;
  applied-keep = Change.applied-keep;
  find_one_and_update_ok = Laws.find_one_and_update_ok;
  find_one_and_update_err = λ f u sort db e h. inl (Laws.find_one_and_update_err f u sort db e h);
  update_one_ok = Laws.update_one_ok;
  update_one_err = λ f u db e h. inl (Laws.update_one_err f u db e h);
  upsert_one_ok = Laws.upsert_one_ok;
  upsert_one_err = λ f u db e h. inl (Laws.upsert_one_err f u db e h);
  upsert_one_duplicate = λ f u db e h d. Laws.upsert_one_err f u db e h;
}
