-- ===== src/Router/Heuristics/Examples.antt =====
-- The heuristics (gateway/policy/router.py) at one prompt and one reply.
use llm_gateway_with_cost_co.Prelude.{
  arith, List, false, leb, length, refl, true, ◌<◌, ◌∷◌, ◌≡◌, ◌≤◌, [],
}
use llm_gateway_with_cost_co.Router.Heuristics.{
  Patterns, full_prompt, is_complex_request, complexity_threshold, signals,
}
use llm_gateway_with_cost_co.Text.{Text, join, strip}
use llm_gateway_with_cost_co.Adapter.{Message, Response}
use llm_gateway_with_cost_co.Router.Heuristics.Verdicts.{is_complex-signals}

-- Patterns that find two domain terms and a request for substance in everything.
abbrev patterns : Patterns
patterns = record {
  code_block = λ t. false;
  domain_terms = λ t. 2;
  analytical_framing = λ t. true;
  simple_prefixes = λ t. false;
  refusal_patterns = λ t. false;
  substantive_request = λ t. true;
  distinct_words = λ t. length t;
}

abbrev question : List Message
question = record { role = "user"; content = 72 ∷ 105 ∷ [] } ∷ []

abbrev sixteen : Text → Text
sixteen t = 97 ∷ 97 ∷ 97 ∷ 97 ∷ 97 ∷ 97 ∷ 97 ∷ 97 ∷ 97 ∷ 97 ∷ 97 ∷ 97 ∷ 97 ∷ 97 ∷ 97 ∷ 97 ∷ t

abbrev essay : Text
essay = sixteen (sixteen (sixteen (sixteen (sixteen (sixteen (sixteen (sixteen [])))))))

abbrev long_reply : Response
long_reply = record {
  id = "1";
  backend_id = "ollama";
  model = "llama3";
  messages = record { role = "assistant"; content = essay } ∷ [];
  prompt_tokens = 9;
  completion_tokens = 32;
  cost_usd = 4;
  latency_ms = 10;
  is_fallback = false;
}

is_complex-signals_example :
    (is_complex_request patterns 500 question
      ≡ leb complexity_threshold (signals patterns 500 (full_prompt question)))
    × (signals patterns 500 (full_prompt question) ≤ 10)
unfolding full_prompt join strip
is_complex-signals_example = is_complex-signals patterns 500 question refl refl

essay_long : 120 < length (full_prompt long_reply.messages)
unfolding full_prompt join strip
essay_long = omega arith
