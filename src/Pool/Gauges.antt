-- ===== src/Pool/Gauges.antt =====
-- src/pool_metrics.rs: what the gauges show.
use getitdone.Prelude.{ℕ, suc, ◌≡◌, ◌+◌, ◌-◌, ◌%◌, ◌^◌, ◌≤◌, ◌<◌, List, [], ◌∷◌, arith}
use getitdone.Pool.{
  CmapEvent, connection_created, connection_closed, connection_checked_out, connection_checked_in,
  other_event, PoolState, fetch_add_one, fetch_sub_one, install, handle, handle_all,
}

pub record Counts : Type 0 where
  pub created : ℕ
  pub closed : ℕ
  pub checked_out : ℕ
  pub checked_in : ℕ

abbrev pub count : List CmapEvent → Counts
count [] = record { created = 0; closed = 0; checked_out = 0; checked_in = 0 }
count (connection_created ∷ es) = record (count es) { created = suc (count es).created }
count (connection_closed ∷ es) = record (count es) { closed = suc (count es).closed }
count (connection_checked_out ∷ es) = record (count es) { checked_out = suc (count es).checked_out }
count (connection_checked_in ∷ es) = record (count es) { checked_in = suc (count es).checked_in }
count (other_event ∷ es) = count es

-- The state is that of `s` after as many steps up and down as the events say, modulo 2 ^ 64.
record Follows (s t : PoolState) (c : Counts) : Type 0 where
  pub size : (t.pool_size + c.closed) % 2 ^ 64 ≡ (s.pool_size + c.created) % 2 ^ 64
  pub out : (t.checked_out + c.checked_in) % 2 ^ 64 ≡ (s.checked_out + c.checked_out) % 2 ^ 64

handle_all-Follows : (es : List CmapEvent) (s : PoolState) → Follows s (handle_all es s) (count es)
unfolding handle_all handle fetch_add_one fetch_sub_one
handle_all-Follows [] s = omega arith
handle_all-Follows (connection_created ∷ es) s =
    omega (arith, handle_all-Follows es (handle connection_created s))
handle_all-Follows (connection_closed ∷ es) s =
    omega (arith, handle_all-Follows es (handle connection_closed s))
handle_all-Follows (connection_checked_out ∷ es) s =
    omega (arith, handle_all-Follows es (handle connection_checked_out s))
handle_all-Follows (connection_checked_in ∷ es) s =
    omega (arith, handle_all-Follows es (handle connection_checked_in s))
handle_all-Follows (other_event ∷ es) s = handle_all-Follows es s

record IsWord (s : PoolState) : Type 0 where
  pub size : s.pool_size < 2 ^ 64
  pub out : s.checked_out < 2 ^ 64

handle_all-IsWord : (es : List CmapEvent) (s : PoolState) → IsWord s → IsWord (handle_all es s)
unfolding handle_all handle fetch_add_one fetch_sub_one
handle_all-IsWord [] s w = w
handle_all-IsWord (connection_created ∷ es) s w = handle_all-IsWord es _ (omega arith)
handle_all-IsWord (connection_closed ∷ es) s w = handle_all-IsWord es _ (omega arith)
handle_all-IsWord (connection_checked_out ∷ es) s w = handle_all-IsWord es _ (omega arith)
handle_all-IsWord (connection_checked_in ∷ es) s w = handle_all-IsWord es _ (omega arith)
handle_all-IsWord (other_event ∷ es) s w = handle_all-IsWord es s w

-- As long as no more connections have been closed than created, nor checked in than checked out, and fewer
-- than 2 ^ 63 were created or checked out, the gauges show the connections that are open, and those in use,
-- in whatever order the events have come.
pub handle_all-install :
    (es : List CmapEvent)
    → (count es).closed ≤ (count es).created
    → (count es).checked_in ≤ (count es).checked_out
    → (count es).created < 2 ^ 63
    → (count es).checked_out < 2 ^ 63
    → ((handle_all es install).pool_size ≡ (count es).created - (count es).closed)
      × ((handle_all es install).checked_out ≡ (count es).checked_out - (count es).checked_in)
unfolding install
handle_all-install es a b c d =
    let f = handle_all-Follows es install in
    let w = handle_all-IsWord es install (omega arith) in
    omega (arith, f.size, f.out, w.size, w.out)
