-- ===== src/Health/Examples.antt =====
-- A round of health checks at a breaker that a request left half-open.
use llm_gateway_with_cost_co.Prelude.{arith, refl, str_eq, true, ◌∷◌, ◌≡◌, []}
use llm_gateway_with_cost_co.Router.Examples.{local_model, hosted}
use llm_gateway_with_cost_co.Health.{HealthCheck, health_round, answers}
use llm_gateway_with_cost_co.Breaker.{BreakerConfig, Breakers, get_row, healthy, can_request}
use llm_gateway_with_cost_co.Ledger.{half_open}
use llm_gateway_with_cost_co.Health.Recovery.{health_round_recovers}

abbrev config : BreakerConfig
config = record { failure_threshold = 3; cooldown_sec = 30000 }

abbrev probing : Breakers
probing = record {
  rows =
      ("openai", record { state = half_open; consecutive_failures = 3; last_failure_time = 1000 })
      ∷ [];
  gauge = ("openai", 1) ∷ [];
}

abbrev check : HealthCheck
check id = (answers (str_eq id "openai"), 70000)

health_round_recovers_example :
    let s' = health_round config check (local_model ∷ hosted ∷ []) probing in
    (get_row "openai" s' ≡ healthy) × (can_request config 70001 "openai" s' ≡ (true, s'))
health_round_recovers_example =
    health_round_recovers config check (local_model ∷ []) [] hosted probing 70001
      (λ e. absurd (ground (arith, e)), tt) refl tt
