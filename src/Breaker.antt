-- ===== src/Breaker.antt =====
-- The circuit breakers of gateway/policy/circuit_breaker.py over the ledger's `circuit_breakers`
-- table (gateway/ledger/store.py). A registry builds a breaker for an id on demand and all of one
-- registry share the table and the two settings, so a breaker is its id.
pub mod Cycle
mod Examples
use llm_gateway_with_cost_co.Prelude.{
  Bool, String, false, get_or, if◌then◌else◌, leb, true, ℕ, ◌+◌, ◌||◌,
}
use llm_gateway_with_cost_co.Ledger.{CircuitState, BreakerRow, half_open, closed, open_circuit}
use llm_gateway_with_cost_co.Table.{Table, insert, lookup}

-- The table, and the gauge `CIRCUIT_BREAKER_STATE` by backend.
pub record Breakers : Type 0 where
  pub rows : Table BreakerRow
  pub gauge : Table ℕ

pub record BreakerConfig : Type 0 where
  pub failure_threshold : ℕ
  pub cooldown_sec : ℕ

abbrev pub healthy : BreakerRow
healthy = record { state = closed; consecutive_failures = 0; last_failure_time = 0 }

-- `get_circuit_breaker_state`, and `_get_state` with its default.
unfoldable pub get_row : String → Breakers → BreakerRow
get_row id s = get_or (lookup id s.rows) healthy

abbrev pub gauge_value : CircuitState → ℕ
gauge_value closed = 0
gauge_value half_open = 1
gauge_value open_circuit = 2

-- `_save_state`, with `update_circuit_breaker_state`.
pub save : String → BreakerRow → Breakers → Breakers
save id row s = record {
  rows = insert id row s.rows;
  gauge = insert id (gauge_value row.state) s.gauge;
}

pub record_success : String → Breakers → Breakers
unfolding save
record_success id s = save id healthy s

abbrev is_half_open : CircuitState → Bool
is_half_open half_open = true
is_half_open _ = false

-- The row that a failure at `now` leaves.
pub failed : BreakerConfig → ℕ → BreakerRow → BreakerRow
failed c now row =
    let n = row.consecutive_failures + 1 in
    record {
      state =
          if is_half_open row.state || leb c.failure_threshold n then open_circuit else row.state;
      consecutive_failures = n;
      last_failure_time = now;
    }

pub record_failure : BreakerConfig → ℕ → String → Breakers → Breakers
unfolding save failed get_row
record_failure c now id s = save id (failed c now (get_row id s)) s

-- `time.time() - last_failure_time >= cooldown_sec`
abbrev pub has_cooled : BreakerConfig → ℕ → BreakerRow → Bool
has_cooled c now row = leb (row.last_failure_time + c.cooldown_sec) now

can_request_on : CircuitState → BreakerConfig → ℕ → String → BreakerRow → Breakers → Bool × Breakers
unfolding save
can_request_on closed c now id row s = (true, s)
can_request_on open_circuit c now id row s =
    if has_cooled c now row
    then (true, save id (record row { state = half_open }) s)
    else (false, s)
can_request_on half_open c now id row s = (false, s)

unfoldable pub can_request : BreakerConfig → ℕ → String → Breakers → Bool × Breakers
unfolding can_request_on get_row
can_request c now id s = let row = get_row id s in can_request_on row.state c now id row s
