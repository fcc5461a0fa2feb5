-- ===== src/Router/Examples.antt =====
-- The router's theorems (gateway/policy/router.py) at two backends.
use mathlib.Core.List.{Mem}
use llm_gateway_with_cost_co.Prelude.{
  arith, All, Bool, List, false, length, none, refl, some, true, ◌*◌, ◌+◌, ◌∷◌, ◌≡◌, ◌≤◌, [], ◌≢◌,
}
use llm_gateway_with_cost_co.Router.{
  RouterState, RouterConfig, Options, routed, other, raised, no_available_backend,
}
use llm_gateway_with_cost_co.Router.Execute.Throttled.{IsUnharmed, IsThrottling, execute_throttled}
use llm_gateway_with_cost_co.Router.Failure.{Failure, is_rate_limit_error}
use llm_gateway_with_cost_co.Adapter.{Message, Adapter, Encoder, Response, count_prompt_tokens}
use llm_gateway_with_cost_co.Router.Execute.{Backends, execute, is_cascade, fails}
use llm_gateway_with_cost_co.Router.Execute.Billing.{IsBilled, execute_bills}
use llm_gateway_with_cost_co.Router.Ranking.{
  get_ranked_adapters, healthy_adapters, rank_healthy, by_window, by_capability, rank_by, by_model,
}
use llm_gateway_with_cost_co.Breaker.Cycle.{allows}
use llm_gateway_with_cost_co.Router.Execute.Bounds.{execute_by_deadline, execute_calls}
use llm_gateway_with_cost_co.Ledger.{open_circuit, half_open}
use llm_gateway_with_cost_co.Breaker.{get_row, can_request}
use llm_gateway_with_cost_co.Router.Ranking.Sound.{FitsWindow, ranked_sound}
use llm_gateway_with_cost_co.Router.Ranking.Probe.{second_ranking_alone, second_ranking_skips}
use llm_gateway_with_cost_co.Table.{lookup, insert}
use llm_gateway_with_cost_co.Router.Execute.Stuck.{half_open_stuck}

abbrev pub local_model : Adapter
local_model = record {
  id = "ollama";
  model = "llama3";
  cost_per_1k_prompt = 0;
  cost_per_1k_completion = 0;
  context_length = 8192;
  capability_tier = 1;
  capabilities = [];
  tokenizer_name = "cl100k_base";
  token_overhead_per_message = 4;
}

abbrev pub hosted : Adapter
hosted = record {
  id = "openai";
  model = "gpt-4o";
  cost_per_1k_prompt = 5;
  cost_per_1k_completion = 15;
  context_length = 128000;
  capability_tier = 3;
  capabilities = "json_mode" ∷ [];
  tokenizer_name = "cl100k_base";
  token_overhead_per_message = 4;
}

abbrev pub config : RouterConfig
config = record {
  adapters = local_model ∷ hosted ∷ [];
  strategy = other;
  timeout_sec = 30000;
  total_deadline_sec = 60000;
  min_tokens_for_complex = 500;
  latency_recheck_sec = 60000;
  breaker = record { failure_threshold = 3; cooldown_sec = 30000 };
}

abbrev solo : RouterConfig
solo = record config { adapters = hosted ∷ [] }

abbrev pub fresh_state : RouterState
fresh_state = record {
  breakers = record { rows = []; gauge = [] };
  latency_ema = [];
  latency_measured_at = [];
  rr_counter = 0;
}

-- The hosted backend's breaker is open, and cooled from 31000 on.
abbrev cooled_state : RouterState
cooled_state = record fresh_state {
  breakers = record {
    rows =
        (
          "openai",
          record { state = open_circuit; consecutive_failures = 3; last_failure_time = 1000 },
        )
        ∷ [];
    gauge = ("openai", 2) ∷ [];
  };
}

abbrev pub encode : Encoder
encode name text = length text

abbrev pub plain : List Message → Bool
plain messages = false

abbrev pub poor : List Message → Response → Bool
poor messages r = false

abbrev pub question : List Message
question = record { role = "user"; content = 72 ∷ 105 ∷ [] } ∷ []

abbrev pub options : Options
options = record {
  required_capabilities = [];
  json_object = false;
  json_mode = false;
  max_tokens = some 100;
  model = none;
}

-- A 429 at once, from every backend.
abbrev pub busy_failure : Failure
busy_failure = record { status_code = some 429; text = []; retry_after = none }

abbrev pub busy : Backends
busy n a = fails busy_failure 10

ranked_both :
    (get_ranked_adapters encode plain config 40000 question options fresh_state).0
    ≡ routed (local_model ∷ hosted ∷ [])
unfolding get_ranked_adapters rank_healthy healthy_adapters can_request lookup by_window
    by_capability count_prompt_tokens rank_by by_model
ranked_both = refl

busy-IsThrottling : IsThrottling busy
unfolding is_rate_limit_error
busy-IsThrottling n a = (busy_failure, 10, refl, refl, omega arith)

ranked_sound_example :
    All
      (λ a.
        Mem a config.adapters
        × (allows config.breaker 40000 (get_row a.id fresh_state.breakers) ≡ true)
        × FitsWindow encode question 100 a)
      (local_model ∷ hosted ∷ [])
ranked_sound_example =
    ranked_sound encode plain config 40000 question options fresh_state refl ranked_both

second_ranking_alone_example :
    let s' = (get_ranked_adapters encode plain solo 40000 question options cooled_state).1 in
    ((healthy_adapters solo.breaker 40000 solo.adapters cooled_state.breakers).0 ≡ hosted ∷ [])
    × ((get_ranked_adapters encode plain solo 90000 question options s').0
        ≡ raised no_available_backend)
unfolding get_row lookup
second_ranking_alone_example =
    second_ranking_alone encode plain solo 40000 90000 question question options options
      cooled_state hosted refl refl refl

execute_by_deadline_example :
    (execute encode plain poor config busy 40000 question options fresh_state).1.clock
    ≤ 40000 + 60000
execute_by_deadline_example =
    execute_by_deadline encode plain poor config busy 40000 question options fresh_state

execute_calls_example :
    ((execute encode plain poor config busy 40000 question options fresh_state).1.calls ≤ 3 * 2)
    × (is_cascade other ≡ false
        → (execute encode plain poor config busy 40000 question options fresh_state).0
          ≡ raised no_available_backend
        → (execute encode plain poor config busy 40000 question options fresh_state).1.calls
          ≡ 3 * 2)
execute_calls_example =
    execute_calls encode plain poor config busy 40000 question options fresh_state
      (local_model ∷ hosted ∷ []) ranked_both

execute_bills_example :
    IsBilled
      (execute encode plain poor config busy 40000 question options fresh_state).0
      (execute encode plain poor config busy 40000 question options fresh_state).1
execute_bills_example =
    execute_bills encode plain poor config busy 40000 question options fresh_state

execute_throttled_example :
    IsUnharmed
      (get_ranked_adapters encode plain config 40000 question options fresh_state).1
      (execute encode plain poor config busy 40000 question options fresh_state).1
    × ((r : Response)
        → ¬ (
            (execute encode plain poor config busy 40000 question options fresh_state).0
            ≡ routed r))
execute_throttled_example =
    execute_throttled encode plain poor config busy 40000 question options fresh_state
      busy-IsThrottling (omega arith)

second_ranking_skips_example : All (λ a. a.id ≢ "openai") (local_model ∷ [])
unfolding get_row get_ranked_adapters rank_healthy healthy_adapters can_request lookup by_window
    by_capability count_prompt_tokens rank_by by_model insert
second_ranking_skips_example =
    second_ranking_skips encode plain config 40000 90000 question question options options
      cooled_state "openai" refl refl refl refl refl

-- The hosted backend's probe was let through at 40000.
abbrev probing_state : RouterState
probing_state = (get_ranked_adapters encode plain config 40000 question options cooled_state).1

half_open_stuck_example :
    (get_row "openai"
      (execute encode plain poor config busy 90000 question options
        probing_state).1.router.breakers).state
    ≡ half_open
unfolding get_row get_ranked_adapters rank_healthy healthy_adapters can_request lookup insert
    by_window by_capability count_prompt_tokens rank_by by_model
half_open_stuck_example =
    half_open_stuck encode plain poor config busy 90000 question options probing_state "openai" refl
      refl
