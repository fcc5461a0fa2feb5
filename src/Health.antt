-- ===== src/Health.antt =====
-- The health checks of gateway/main.py: one round of `health_check_loop` over the router's adapters.
-- A round begins every minute. What an adapter's `health_check` answers, and when, is a parameter.
use llm_gateway_with_cost_co.Prelude.{arith, Bool, List, String, false, true, ℕ, ◌∷◌, []}
mod Recovery
mod Examples
use llm_gateway_with_cost_co.Breaker.{BreakerConfig, Breakers, record_success, record_failure}
use llm_gateway_with_cost_co.Adapter.{Adapter}

pub data HealthReply : Type 0 where
  answers : Bool → HealthReply
  raises : HealthReply

-- The reply of the adapter with an id, and the time at which it is recorded
abbrev pub HealthCheck : Type 0
HealthCheck = String → HealthReply × ℕ

abbrev pub record_health : BreakerConfig → ℕ → String → Bool → Breakers → Breakers
record_health c now id true s = record_success id s
record_health c now id false s = record_failure c now id s

-- The body of the loop. An exception ends the round, and the adapters behind are not asked.
unfoldable pub health_round : BreakerConfig → HealthCheck → List Adapter → Breakers → Breakers
health_round c check [] s = s
health_round c check (a ∷ adapters) s = elim ((check a.id).0) [
  | raises ↦ s
  | answers is_healthy ↦
      health_round c check adapters (record_health c (check a.id).1 a.id is_healthy s)
]
