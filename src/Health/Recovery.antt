-- ===== src/Health/Recovery.antt =====
-- How the health checks bring a breaker back.
use llm_gateway_with_cost_co.Prelude.{
  All, Bool, List, String, inl, inr, refl, true, ℕ, ◌++◌, ◌∷◌, ◌≡◌, ◌≢◌, ◌⊎◌, [], false,
}
use llm_gateway_with_cost_co.Breaker.{
  can_request, BreakerConfig, Breakers, get_row, healthy, record_success,
}
use llm_gateway_with_cost_co.Health.{
  health_round, HealthReply, raises, HealthCheck, answers, record_health,
}
use llm_gateway_with_cost_co.Adapter.{Adapter}
use llm_gateway_with_cost_co.Breaker.Cycle.{get_row-success, breaker_others}

reply_cases : (r : HealthReply) → (r ≡ raises) ⊎ ((b : Bool) × (r ≡ answers b))
reply_cases raises = inl refl
reply_cases (answers b) = inr (b, refl)

-- A round over adapters that raise nothing goes on with those behind them.
health_round-append :
    (c : BreakerConfig) (check : HealthCheck) (before after : List Adapter) (s : Breakers)
    → All (λ a. (check a.id).0 ≢ raises) before
    → health_round c check (before ++ after) s
      ≡ health_round c check after (health_round c check before s)
unfolding health_round
health_round-append c check [] after s h = refl
health_round-append c check (a ∷ before) after s h = elim (reply_cases (check a.id).0) [
  | inl q ↦ absurd (h.0 q)
  | inr (b, q) ↦
      rw (q, health_round)
        (health_round-append c check before after (record_health c (check a.id).1 a.id b s) h.1)
]

get_row-health :
    (c : BreakerConfig) (now : ℕ) (id j : String) (b : Bool) (s : Breakers)
    → id ≢ j
    → get_row j (record_health c now id b s) ≡ get_row j s
get_row-health c now id j true s ne = (breaker_others c id s j now ne).0
get_row-health c now id j false s ne = (breaker_others c id s j now ne).1

health_round_others :
    (c : BreakerConfig) (check : HealthCheck) (adapters : List Adapter) (j : String) (s : Breakers)
    → All (λ a. a.id ≢ j) adapters
    → get_row j (health_round c check adapters s) ≡ get_row j s
unfolding health_round
health_round_others c check [] j s h = refl
health_round_others c check (a ∷ adapters) j s h = elim (reply_cases (check a.id).0) [
  | inl q ↦ rw (q, health_round) refl
  | inr (b, q) ↦
      rw
        (
          q,
          health_round,
          health_round_others c check adapters j (record_health c (check a.id).1 a.id b s) h.1,
        )
        (get_row-health c (check a.id).1 a.id j b s h.0)
]

-- When the adapters before one raise nothing and it answers that it is healthy, and its id is its
-- own, then after the round, whatever the state of the breakers before it, its breaker is closed
-- with no failure counted and lets the next request through at any time.
pub health_round_recovers :
    (c : BreakerConfig) (check : HealthCheck) (before after : List Adapter) (a : Adapter)
    (s : Breakers) (now : ℕ)
    → All (λ x. (check x.id).0 ≢ raises) before
    → (check a.id).0 ≡ answers true
    → All (λ x. x.id ≢ a.id) after
    → let s' = health_round c check (before ++ a ∷ after) s in
      (get_row a.id s' ≡ healthy) × (can_request c now a.id s' ≡ (true, s'))
unfolding can_request health_round
health_round_recovers c check before after a s now quiet up own =
    let s' = health_round c check before s in
    let row : get_row a.id (health_round c check (before ++ a ∷ after) s) ≡ healthy =
      rw
        (
          health_round-append c check before (a ∷ after) s quiet,
          up,
          health_round,
          health_round_others c check after a.id (record_success a.id s') own,
        )
        (get_row-success a.id s') in
    (row, rw (row, can_request) refl)
