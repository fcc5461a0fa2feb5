-- ===== src/Ledger.antt =====
-- The tables of gateway/ledger/store.py (`_init_db`) as one record, and what its methods raise.
-- Money is a signed count of an arbitrary small unit, time a count of milliseconds.
pub mod Keys
pub mod Budgets
pub mod Requests
pub mod Reclaim
pub mod RateLimit
pub mod Accounts
pub mod Migration
pub mod Examples
use llm_gateway_with_cost_co.Prelude.{ℕ, ◌*◌, List, [], String, Option, ℤ}
use llm_gateway_with_cost_co.Table.{Table}

-- A row of `budgets`; its key is the digest of the client's key. `none` is NULL.
pub record Budget : Type 0 where
  pub key_prefix : Option String
  pub daily_limit_usd : Option ℤ
  pub monthly_limit_usd : Option ℤ
  pub spend_today : ℤ
  pub spend_month : ℤ
  pub last_reset_date : Option String
  pub last_reset_month : Option String
  pub requests_per_minute : Option ℤ

-- A row of `requests`; its key is the request's id.
pub record RequestRow : Type 0 where
  pub api_key : String
  pub backend : String
  pub model : String
  pub prompt_tokens : ℕ
  pub completion_tokens : ℕ
  pub cost_usd : ℤ
  pub latency_ms : ℕ

-- A row of `reservations`; its key is the request's id.
pub record Hold : Type 0 where
  pub api_key : String
  pub amount_usd : ℤ
  pub reset_date : Option String
  pub reset_month : Option String
  pub reserved_at : ℕ

pub record RateEntry : Type 0 where
  pub api_key : String
  pub ts : ℕ

pub record FeedbackRow : Type 0 where
  pub request_id : String
  pub api_key : Option String
  pub backend : Option String
  pub model : Option String
  pub rating : ℤ
  pub comment : Option String

pub data CircuitState : Type 0 where
  closed open_circuit half_open : CircuitState

-- A row of `circuit_breakers`; its key is the backend's id.
pub record BreakerRow : Type 0 where
  pub state : CircuitState
  pub consecutive_failures : ℕ
  pub last_failure_time : ℕ

pub record Store : Type 0 where
  pub budgets : Table Budget
  pub requests : Table RequestRow
  pub circuit_breakers : Table BreakerRow
  pub rate_limit_log : List RateEntry
  pub feedback : List FeedbackRow
  pub reservations : Table Hold

abbrev pub empty : Store
empty = record {
  budgets = [];
  requests = [];
  circuit_breakers = [];
  rate_limit_log = [];
  feedback = [];
  reservations = [];
}

-- One reading of the clock: the time, and its UTC day and month as `strftime` prints them.
pub record Clock : Type 0 where
  pub now : ℕ
  pub today : String
  pub month : String

abbrev pub second : ℕ
second = 1000

pub data Error : Type 0 where
  no_budget daily_exceeded monthly_exceeded duplicate_id : Error
  rate_limited : ℤ → Error

pub data Result {ℓ} (A : Type ℓ) : Type ℓ where
  ok : A → Result A
  err : Error → Result A
