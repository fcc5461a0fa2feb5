-- ===== src/Breaker/Examples.antt =====
-- The breakers' theorems (gateway/policy/circuit_breaker.py) at one backend.
use llm_gateway_with_cost_co.Prelude.{
  arith, String, eq_iff, false, if◌then◌else◌, leb, refl, true, ℕ, ◌+◌, ◌∷◌, ◌≡◌, ◌≢◌, [],
}
use llm_gateway_with_cost_co.Breaker.{
  Breakers, BreakerConfig, get_row, record_success, record_failure, can_request, has_cooled,
}
use llm_gateway_with_cost_co.Ledger.{open_circuit, closed}
use llm_gateway_with_cost_co.Table.{lookup}
use llm_gateway_with_cost_co.Breaker.Cycle.{failures, trips_exactly, probe_once}

abbrev config : BreakerConfig
config = record { failure_threshold = 3; cooldown_sec = 30000 }

abbrev tripped : Breakers
tripped = record {
  rows =
      ("groq", record { state = open_circuit; consecutive_failures = 3; last_failure_time = 1000 })
      ∷ [];
  gauge = ("groq", 2) ∷ [];
}

trips_exactly_example :
    (get_row "groq" (failures config "groq" (1 ∷ 2 ∷ 3 ∷ []) (record_success "groq" tripped))).state
    ≡ (if leb 3 3 then open_circuit else closed)
trips_exactly_example = trips_exactly config "groq" tripped (1 ∷ 2 ∷ 3 ∷ []) (omega arith)

probe_once_example :
    let (allowed, s') = can_request config 40000 "groq" tripped in
    (allowed ≡ has_cooled config 40000 (get_row "groq" tripped))
    × (allowed ≡ false → s' ≡ tripped)
    × (allowed ≡ true → (later : ℕ) → can_request config later "groq" s' ≡ (false, s'))
    × ((get_row "groq" (record_success "groq" s')).state ≡ closed)
    × ((later t : ℕ)
        → allowed ≡ true
        → (can_request config later "groq" (record_failure config t "groq" s')).0
          ≡ leb (t + config.cooldown_sec) later)
unfolding get_row lookup
probe_once_example = probe_once config "groq" tripped 40000 refl

groq_other : ◌≢◌ {A = String} "groq" "openai"
groq_other e = ground (arith, e, eq_iff "groq" "openai")
