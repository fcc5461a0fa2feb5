-- ===== src/Screening.antt =====
-- The input side of gateway/policy/guardrails.py: the patterns of prompt injection, and
-- `validate_messages`, which looks for them in the variants of every message.
use llm_gateway_with_cost_co.Prelude.{
  arith, Bool, List, false, map, none, not, ℕ, ◌&&◌, ◌==◌, ◌∷◌, ◌||◌, [],
}
pub mod Patterns
mod Hidden
mod Examples
use llm_gateway_with_cost_co.Text.{Text, codes, is_empty, is_space}
use llm_gateway_with_cost_co.Regex.{
  Regex, search_from, any_of, boundary, seq, epsilon, at_least, lazily_at_most, any_case, is_word,
  one, optional, star, in_order, is_one_of, alt, at_most,
}
use llm_gateway_with_cost_co.Normalize.{UnicodeForms, matching_variants}
use llm_gateway_with_cost_co.Adapter.{Message}
use llm_gateway_with_cost_co.Screening.Patterns.{injection_patterns}

unfoldable pub some_search : Regex → List Text → Bool
some_search r [] = false
some_search r (t ∷ ts) = search_from r none t || some_search r ts

unfoldable pub some_injection : List Regex → List Text → Bool
some_injection [] candidates = false
some_injection (r ∷ rs) candidates = some_search r candidates || some_injection rs candidates

-- Whether `validate_messages` raises
unfoldable pub refuses_messages : UnicodeForms → (ℕ → Bool) → List Message → Bool
refuses_messages forms wide [] = false
refuses_messages forms wide (m ∷ ms) =
    not (is_empty m.content)
      && some_injection (injection_patterns wide) (matching_variants forms wide m.content)
    || refuses_messages forms wide ms
