-- ===== src/Router.antt =====
-- The router of gateway/policy/router.py: its settings, its state, and what it raises.
-- Times are in milliseconds.
pub mod Order
pub mod Ranking
pub mod Failure
pub mod Execute
pub mod Stream
pub mod Heuristics
pub mod Examples
use llm_gateway_with_cost_co.Prelude.{Bool, List, Option, String, ℕ}
use llm_gateway_with_cost_co.Adapter.{Adapter}
use llm_gateway_with_cost_co.Breaker.{Breakers, BreakerConfig}
use llm_gateway_with_cost_co.Table.{Table}

pub data Strategy : Type 0 where
  cost_first cascade latency_first round_robin weighted_round_robin complexity other : Strategy

pub record RouterConfig : Type 0 where
  pub adapters : List Adapter
  pub strategy : Strategy
  pub timeout_sec : ℕ
  pub total_deadline_sec : ℕ
  pub min_tokens_for_complex : ℕ
  pub latency_recheck_sec : ℕ
  pub breaker : BreakerConfig

-- The breakers are the ledger's; the rest is the router's own.
pub record RouterState : Type 0 where
  pub breakers : Breakers
  pub latency_ema : Table ℕ
  pub latency_measured_at : Table ℕ
  pub rr_counter : ℕ

-- The keyword arguments that routing reads. `json_object` is `response_format.type`'s test.
pub record Options : Type 0 where
  pub required_capabilities : List String
  pub json_object : Bool
  pub json_mode : Bool
  pub max_tokens : Option ℕ
  pub model : Option String

pub data RouteError : Type 0 where
  no_available_backend : RouteError
  deadline_exceeded : RouteError
  -- shortfall, tokens needed, window
  context_length_exceeded : ℕ → ℕ → ℕ → RouteError

pub data Routed {ℓ} (A : Type ℓ) : Type ℓ where
  routed : A → Routed A
  raised : RouteError → Routed A
