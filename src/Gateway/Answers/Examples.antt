-- ===== src/Gateway/Answers/Examples.antt =====
-- Repairs of JSON, and an answer that is cached for one caller and found by another, whose masked
-- messages are the same.
use llm_gateway_with_cost_co.Prelude.{
  Bool, List, false, none, pos, refl, some, true, ◌∷◌, ◌≡◌, [], arith, if◌then◌else◌, inr, ◌==◌,
}
use llm_gateway_with_cost_co.Gateway.Answers.Hits.{hit_answers_as_miss, sent}
use llm_gateway_with_cost_co.Gateway.Answers.{
  Completion, cached_answer, cached_deltas, choices_of, completion, deliver, json_requested,
  masked_answer, repair_all, repaired, restore_choices, restore_completion, sanitized_contents,
}
use llm_gateway_with_cost_co.Guardrails.Json.{
  closing, fenced, first_group, opening, repair_json, shortest, unwrapped,
}
use llm_gateway_with_cost_co.Guardrails.Patterns.{
  guardrails_pipeline, leak_patterns, secret_patterns,
}
use llm_gateway_with_cost_co.Guardrails.{
  GuardrailsPipeline, is_leak, redact, sanitize_completion, some_leak,
}
use llm_gateway_with_cost_co.Regex.{
  any_case, any_of, at_least, ends, in_order, is_one_of, is_word, literal, match_at, match_end,
  optional, search_from, sub_from, times,
}
use llm_gateway_with_cost_co.Pii.Restorer.{
  alternatives, drop_brackets, drop_last_brackets, first_alternative, insert_by_length,
  last_underscore, longest_first, placeholder_pattern, restore_from, restore_text, rpartition,
  strip_brackets,
}
use llm_gateway_with_cost_co.Pii.{CharTables}
use llm_gateway_with_cost_co.Adapter.{Message, Response}
use llm_gateway_with_cost_co.Cache.{Fingerprint, Kwargs, PromptCache, get, is_cacheable, unset}
use llm_gateway_with_cost_co.Router.{Options}
use llm_gateway_with_cost_co.Text.{Text, codes, is_empty, is_space, join, strip}

-- Texts that start with a brace are JSON here.
abbrev loads : Text → Bool
loads [] = false
loads (c ∷ t) = c == b'{'

fence_is_unwrapped : repair_json loads (codes "```json\n{1}\n```") ≡ (codes "{1}", true)
unfolding repair_json unwrapped fenced first_group shortest opening closing ends in_order literal
    optional any_case is_space strip
fence_is_unwrapped = refl

prose_is_kept : repair_json loads (codes "``` no") ≡ (codes "``` no", false)
unfolding repair_json unwrapped fenced first_group shortest opening closing ends in_order literal
    optional any_case is_space strip
prose_is_kept = refl

abbrev ascii : CharTables
ascii = record { wide_word = λ c. false; wide_digit = λ c. none }

abbrev pipeline : GuardrailsPipeline
pipeline = guardrails_pipeline (λ c. false)

abbrev fingerprint : Fingerprint
fingerprint messages kwargs = if is_empty messages then "none" else "some"

abbrev question : List Message
question = record { role = "user"; content = codes "Hi [NAME_1]" } ∷ []

abbrev kwargs : Kwargs
kwargs = record { no_cache = false; cache_is_false = false; temperature = unset; items = [] }

abbrev options : Options
options = record {
  required_capabilities = [];
  json_object = false;
  json_mode = false;
  max_tokens = none;
  model = none;
}

abbrev response : Response
response = record {
  id = "c1";
  backend_id = "openai";
  model = "gpt-4o";
  messages = record { role = "assistant"; content = codes "to [EMAIL_1] now" } ∷ [];
  prompt_tokens = 5;
  completion_tokens = 7;
  cost_usd = 2;
  latency_ms = 30;
  is_fallback = false;
}

abbrev empty_cache : PromptCache Completion
empty_cache = record {
  ttl_seconds = 300;
  max_entries = 2;
  max_cacheable_temperature = pos 1000;
  cache = [];
}

abbrev mapping_of : Text → List (Text × Text)
mapping_of t = (codes "[EMAIL_1]", t) ∷ []

abbrev reply_with : Text → Completion
reply_with t = record {
  id = "c1";
  model = "gpt-4o";
  choices = record { role = "assistant"; content = t } ∷ [];
  prompt_tokens = 5;
  completion_tokens = 7;
  total_tokens = 12;
}

abbrev after_alice : PromptCache Completion
after_alice =
    (deliver pipeline ascii loads fingerprint 10 question kwargs options
      (mapping_of (codes "a@b.co")) response empty_cache).1

delivered :
    (deliver pipeline ascii loads fingerprint 10 question kwargs options
      (mapping_of (codes "e@f.io"))
      response
      empty_cache).0
    ≡ inr (reply_with (codes "to e@f.io now"))
unfolding deliver masked_answer completion choices_of repaired repair_all json_requested
    sanitized_contents restore_completion restore_choices sanitize_completion redact is_leak
    some_leak guardrails_pipeline secret_patterns leak_patterns ends match_at match_end in_order
    is_word literal any_of at_least times optional any_case is_one_of sub_from search_from
    restore_text restore_from first_alternative alternatives longest_first insert_by_length
    placeholder_pattern rpartition last_underscore strip_brackets drop_brackets drop_last_brackets
    is_space join
delivered = refl

hit_answers_as_miss_example :
    (stored : Completion) × ((get fingerprint 200 question kwargs after_alice).0 ≡ some stored)
    × (cached_answer ascii (mapping_of (codes "e@f.io")) stored
        ≡ reply_with (codes "to e@f.io now"))
    × (sent (cached_deltas ascii (mapping_of (codes "e@f.io")) stored.choices)
        ≡ some (codes "to e@f.io now"))
unfolding is_cacheable
hit_answers_as_miss_example =
    hit_answers_as_miss pipeline ascii loads fingerprint 10 200 question question kwargs kwargs
      options (mapping_of (codes "a@b.co")) (mapping_of (codes "e@f.io")) response
      (reply_with (codes "to e@f.io now")) empty_cache (omega arith) refl refl refl (omega arith)
      delivered
