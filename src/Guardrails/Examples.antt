-- ===== src/Guardrails/Examples.antt =====
-- Runs of the output guardrails, and an application of each property.
use mathlib.Core.List.{Mem}
use llm_gateway_with_cost_co.Prelude.{
  All, false, length, refl, true, ◌-◌, ◌<◌, ◌∷◌, ◌≡◌, ◌≤◌, ◌⊎◌, [],
}
use llm_gateway_with_cost_co.Regex.{
  ends, match_at, in_order, is_word, literal, any_of, at_least, times, sub_from, search_from,
  starts_from, match_end, any_case, is_one_of, optional,
}
use llm_gateway_with_cost_co.Text.{is_space, codes}
use llm_gateway_with_cost_co.Guardrails.{
  redact, some_leak, hold_back, finished_secret, secret_starters, release, screen, feed, flush,
  stream,
}
use llm_gateway_with_cost_co.Guardrails.Patterns.{secret_patterns, leak_patterns}
use llm_gateway_with_cost_co.Guardrails.Boundary.{emit_boundary_settles, Settled}
use llm_gateway_with_cost_co.Guardrails.Pieces.{stream_sends_cleaned, Ended}
use llm_gateway_with_cost_co.Guardrails.{
  emit_boundary, stream, is_leak, sanitize_completion, GuardrailsPipeline, starters, new_filter,
}
use llm_gateway_with_cost_co.Guardrails.Patterns.{guardrails_pipeline}
use llm_gateway_with_cost_co.Text.{Text, codes}

-- Letters beyond ASCII are not looked at in these texts.
abbrev pipeline : GuardrailsPipeline
pipeline = guardrails_pipeline (λ c. false)

redacted_key :
    sanitize_completion pipeline (codes "key sk-abcdefghijklmnopqrst ok")
    ≡ codes "key [OPENAI_KEY_REDACTED] ok"
unfolding guardrails_pipeline secret_patterns sanitize_completion redact sub_from ends match_at
    in_order is_word literal any_of at_least times is_space
redacted_key = refl

kept_back : emit_boundary pipeline (codes "ok sk-abcdefghijk") ≡ 3
unfolding guardrails_pipeline secret_patterns emit_boundary hold_back finished_secret starters
    starts_from match_end secret_starters any_case is_one_of ends match_at in_order is_word literal
    any_of at_least times is_space
kept_back = refl

leaking : is_leak pipeline (codes "well, My  system prompt says") ≡ true
unfolding guardrails_pipeline leak_patterns is_leak some_leak search_from any_case optional ends
    match_at in_order is_word literal any_of at_least times is_space
leaking = refl

leak_stops :
    (stream pipeline
      (codes "All right, my system pro" ∷ codes "mpt is " ∷ codes "secret" ∷ [])
      new_filter).0
    ≡ codes "All right, my syst"
unfolding guardrails_pipeline secret_patterns leak_patterns stream feed flush screen release
    sanitize_completion redact is_leak some_leak emit_boundary hold_back finished_secret starters
    starts_from search_from sub_from match_end secret_starters any_case is_one_of optional ends
    match_at in_order is_word literal any_of at_least times is_space
leak_stops = refl

split_key_is_redacted :
    (stream pipeline
      (codes "key sk-abcdefg" ∷ codes "hijklmnopqrstuv" ∷ codes " and more" ∷ [])
      new_filter).0
    ≡ codes "key [OPENAI_KEY_REDACTED] and more"
unfolding guardrails_pipeline secret_patterns leak_patterns stream feed flush screen release
    sanitize_completion redact is_leak some_leak emit_boundary hold_back finished_secret starters
    starts_from search_from sub_from match_end secret_starters any_case is_one_of optional ends
    match_at in_order is_word literal any_of at_least times is_space
split_key_is_redacted = refl

-- The letters `eyj` inside a key are a starter of their own. The boundary is put there, and neither
-- half of the key matches any more.
abbrev nested : Text
nested = codes "sk-abcdeyJghijklmnopqrstuvw and more"

nested_is_redacted_whole :
    sanitize_completion pipeline nested ≡ codes "[OPENAI_KEY_REDACTED] and more"
unfolding guardrails_pipeline secret_patterns sanitize_completion redact sub_from ends match_at
    in_order is_word literal any_of at_least times is_space
nested_is_redacted_whole = refl

nested_is_streamed : (stream pipeline (nested ∷ []) new_filter).0 ≡ nested
unfolding guardrails_pipeline secret_patterns leak_patterns stream feed flush screen release
    sanitize_completion redact is_leak some_leak emit_boundary hold_back finished_secret starters
    starts_from search_from sub_from match_end secret_starters any_case is_one_of optional ends
    match_at in_order is_word literal any_of at_least times is_space
nested_is_streamed = refl

emit_boundary_settles_example :
    (emit_boundary pipeline nested ≤ length nested - 6)
    × All
        (λ s.
          s < emit_boundary pipeline nested
          → Settled pipeline.output_secret_patterns nested (length nested - 6) s)
        (starters nested)
    × ((emit_boundary pipeline nested ≡ length nested - 6)
        ⊎ Mem (emit_boundary pipeline nested) (starters nested))
emit_boundary_settles_example = emit_boundary_settles pipeline nested

stream_sends_cleaned_example :
    Ended pipeline [] nested
      (stream pipeline (codes "sk-abcdeyJghijkl" ∷ codes "mnopqrstuvw and more" ∷ []) new_filter)
stream_sends_cleaned_example =
    stream_sends_cleaned pipeline (codes "sk-abcdeyJghijkl" ∷ codes "mnopqrstuvw and more" ∷ [])
