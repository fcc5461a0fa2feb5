-- ===== src/Guardrails/Patterns.antt =====
-- The patterns that `GuardrailsPipeline` compiles for answers (gateway/policy/guardrails.py).
use llm_gateway_with_cost_co.Prelude.{Bool, List, map, ℕ, ◌==◌, ◌∷◌, ◌||◌, []}
use llm_gateway_with_cost_co.Regex.{
  is_alnum, Regex, is_upper, boundary, any_of, is_digit, at_least, one, any_case, is_word, in_order,
  literal, optional, times, is_one_of, seq, star,
}
use llm_gateway_with_cost_co.Text.{Text, is_space, codes}
use llm_gateway_with_cost_co.Guardrails.{SecretPattern, GuardrailsPipeline}

-- [a-zA-Z0-9_\-] and [a-zA-Z0-9_\-\.]
abbrev token_char : ℕ → Bool
token_char c = is_alnum c || c == b'_' || c == b'-'

abbrev credential_char : ℕ → Bool
credential_char c = token_char c || c == b'.'

abbrev upper_or_digit : ℕ → Bool
upper_or_digit c = is_upper c || is_digit c

abbrev alnum_or_dash : ℕ → Bool
alnum_or_dash c = is_alnum c || c == b'-'

abbrev spaces : Regex
spaces = at_least 1 (one is_space)

abbrev words : List Text → Regex
words ts = any_of (map any_case ts)

-- The secrets that an answer must not show, in the order in which they are replaced
unfoldable pub secret_patterns : (ℕ → Bool) → List SecretPattern
secret_patterns wide =
    let edge = boundary (is_word wide) in
    record {
      label = codes "OPENAI_KEY";
      pattern = in_order (edge ∷ literal (codes "sk-") ∷ at_least 20 (one token_char) ∷ edge ∷ []);
    }
    ∷ record {
      label = codes "AWS_KEY";
      pattern = in_order (
          edge
          ∷ any_of (literal (codes "AKIA") ∷ literal (codes "ASIA") ∷ [])
          ∷ times 16 (one upper_or_digit)
          ∷ edge
          ∷ []);
    }
    ∷ record {
      label = codes "GITHUB_TOKEN";
      pattern = in_order (
          edge
          ∷ literal (codes "gh")
          ∷ one (is_one_of (codes "pousr"))
          ∷ literal (codes "_")
          ∷ at_least 30 (one is_alnum)
          ∷ edge
          ∷ []);
    }
    ∷ record {
      label = codes "SLACK_TOKEN";
      pattern = in_order (
          edge
          ∷ literal (codes "xox")
          ∷ one (is_one_of (codes "baprs"))
          ∷ literal (codes "-")
          ∷ at_least 10 (one alnum_or_dash)
          ∷ edge
          ∷ []);
    }
    ∷ record {
      label = codes "JWT";
      pattern = in_order (
          edge
          ∷ literal (codes "eyJ")
          ∷ star (one token_char)
          ∷ literal (codes ".")
          ∷ star (one token_char)
          ∷ literal (codes ".")
          ∷ star (one token_char)
          ∷ edge
          ∷ []);
    }
    ∷ record {
      label = codes "BEARER";
      pattern = in_order (
          edge ∷ literal (codes "Bearer") ∷ spaces ∷ at_least 20 (one credential_char) ∷ edge ∷ []);
    }
    ∷ []

-- The signs that a model is reciting its own instructions
unfoldable pub leak_patterns : (ℕ → Bool) → List Regex
leak_patterns wide =
    let edge = boundary (is_word wide) in
    in_order (
      edge
      ∷ any_case (codes "my")
      ∷ spaces
      ∷ any_case (codes "system")
      ∷ spaces
      ∷ any_case (codes "prompt")
      ∷ spaces
      ∷ words (codes "is" ∷ codes "was" ∷ codes "says" ∷ codes "contains" ∷ [])
      ∷ edge
      ∷ [])
    ∷ in_order (
        edge
        ∷ words (codes "my" ∷ codes "the" ∷ [])
        ∷ spaces
        ∷ words (codes "internal" ∷ codes "hidden" ∷ codes "original" ∷ codes "secret" ∷ [])
        ∷ spaces
        ∷ any_case (codes "instructions")
        ∷ spaces
        ∷ words (codes "are" ∷ codes "were" ∷ [])
        ∷ edge
        ∷ [])
    ∷ in_order (
        edge
        ∷ any_case (codes "as")
        ∷ spaces
        ∷ any_case (codes "part")
        ∷ spaces
        ∷ any_case (codes "of")
        ∷ spaces
        ∷ any_case (codes "my")
        ∷ spaces
        ∷ optional (seq (any_case (codes "system")) spaces)
        ∷ any_case (codes "instructions")
        ∷ edge
        ∷ [])
    ∷ in_order (
        edge
        ∷ any_case (codes "i")
        ∷ spaces
        ∷ any_case (codes "was")
        ∷ spaces
        ∷ words (codes "instructed" ∷ codes "told" ∷ [])
        ∷ spaces
        ∷ any_case (codes "to")
        ∷ spaces
        ∷ words (codes "never" ∷ codes "always" ∷ [])
        ∷ edge
        ∷ [])
    ∷ []

-- The pipeline that the constructor builds
unfoldable pub guardrails_pipeline : (ℕ → Bool) → GuardrailsPipeline
guardrails_pipeline wide = record {
  output_secret_patterns = secret_patterns wide;
  output_leak_patterns = leak_patterns wide;
}
