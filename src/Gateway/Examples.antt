-- ===== src/Gateway/Examples.antt =====
-- The price of a request on two backends (gateway/main.py).
use llm_gateway_with_cost_co.Router.Examples.{question, options, encode, local_model, hosted}
use llm_gateway_with_cost_co.Gateway.Estimate.{estimate_covers}
use llm_gateway_with_cost_co.Gateway.{ChatRequest, costliest, estimated_cost}
use llm_gateway_with_cost_co.Adapter.{Adapter, calculate_cost, count_prompt_tokens}
use llm_gateway_with_cost_co.Prelude.{All, List, arith, ◌<◌, ◌∷◌, ◌≤◌, []}

abbrev request : ChatRequest
request = record { api_key = "alice"; request_id = "r1"; messages = question; options = options }

abbrev ranked : List Adapter
ranked = local_model ∷ hosted ∷ []

estimate_covers_example :
    All (λ t. calculate_cost t 6 7 ≤ estimated_cost encode request ranked) ranked
unfolding count_prompt_tokens
estimate_covers_example =
    estimate_covers encode request ranked 8 6 7 (omega arith) (omega arith) (omega arith)
      (omega arith)

-- The sum of its prices is below that of `hosted`, and its price for the prompt is above.
abbrev reader : Adapter
reader = record hosted { cost_per_1k_prompt = 9; cost_per_1k_completion = 0 }

long_prompt_exceeds :
    estimated_cost encode request (reader ∷ hosted ∷ []) < calculate_cost reader 1000 10
unfolding costliest count_prompt_tokens estimated_cost calculate_cost
long_prompt_exceeds = omega arith
