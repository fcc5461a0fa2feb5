-- ===== src/Router/Heuristics.antt =====
-- The two text heuristics of gateway/policy/router.py: `_complexity_score` with
-- `_is_complex_request`, and `_is_response_inadequate`. The compiled patterns are parameters.
pub mod Verdicts
mod Examples
use llm_gateway_with_cost_co.Prelude.{
  ℕ, Bool, List, false, if◌then◌else◌, leb, length, ltb, min, not, str_eq, true, ◌&&◌, ◌*◌, ◌+◌,
  ◌∷◌, [], ◌||◌,
}
use llm_gateway_with_cost_co.Adapter.{Message, Response}
use llm_gateway_with_cost_co.Text.{Text, codes, is_empty, join, strip}

-- Python's `re` on the module's patterns: whether one is found, how many domain terms are, and how
-- many different words `\w+` finds.
pub record Patterns : Type 0 where
  pub code_block : Text → Bool
  pub domain_terms : Text → ℕ
  pub analytical_framing : Text → Bool
  pub simple_prefixes : Text → Bool
  pub refusal_patterns : Text → Bool
  pub substantive_request : Text → Bool
  pub distinct_words : Text → ℕ

abbrev pub score_code_block : ℕ
score_code_block = 3

abbrev pub score_analytical : ℕ
score_analytical = 2

abbrev pub score_per_domain_term : ℕ
score_per_domain_term = 1

abbrev pub max_domain_term_score : ℕ
max_domain_term_score = 3

abbrev pub score_long_input : ℕ
score_long_input = 2

abbrev pub complexity_threshold : ℕ
complexity_threshold = 3

abbrev pub min_distinct_words_for_length : ℕ
min_distinct_words_for_length = 40

abbrev pub space : Text
space = codes " "

pub contents : List Message → List Text
contents [] = []
contents (m ∷ ms) = m.content ∷ contents ms

-- `" ".join(...).strip()`
pub full_prompt : List Message → Text
unfolding contents
full_prompt messages = strip (join space (contents messages))

-- The content of the first message of the user, or nothing.
first_user_msg : List Message → Text
first_user_msg [] = []
first_user_msg (m ∷ ms) =
    let rest = first_user_msg ms in if str_eq m.role "user" then strip m.content else rest

-- The four signals, each capped. `len / 4.0 >= n` is `len >= 4 * n`.
pub signals : Patterns → ℕ → Text → ℕ
signals p min_tokens prompt =
    (if p.code_block prompt then score_code_block else 0)
    + min (p.domain_terms prompt * score_per_domain_term) max_domain_term_score
    + (if p.analytical_framing prompt then score_analytical else 0)
    + (if leb (4 * min_tokens) (length prompt)
          && leb min_distinct_words_for_length (p.distinct_words prompt)
        then score_long_input
        else 0)

pub complexity_score : Patterns → ℕ → List Message → ℕ
unfolding full_prompt first_user_msg signals
complexity_score p min_tokens messages =
    let prompt = full_prompt messages in
    let score = signals p min_tokens prompt in
    if is_empty messages || is_empty prompt
    then 0
    else if leb score score_per_domain_term
        && ltb (length prompt) (4 * 60)
        && p.simple_prefixes (first_user_msg messages)
    then 0
    else score

pub is_complex_request : Patterns → ℕ → List Message → Bool
unfolding complexity_score
is_complex_request p min_tokens messages =
    leb complexity_threshold (complexity_score p min_tokens messages)

abbrev pub max_refusal_response_chars : ℕ
max_refusal_response_chars = 120

abbrev pub min_adequate_response_chars : ℕ
min_adequate_response_chars = 1

abbrev pub min_substantive_response_chars : ℕ
min_substantive_response_chars = 80

-- `" ".join(...)` of the messages that have a content
spoken : List Message → List Text
spoken [] = []
spoken (m ∷ ms) = let rest = spoken ms in if is_empty m.content then rest else m.content ∷ rest

pub prompt_of : List Message → Text
unfolding spoken
prompt_of messages = join space (spoken messages)

-- `stopped_early` is `finish_reason == "length"`.
pub is_response_inadequate : Patterns → Bool → List Message → Response → Bool
unfolding full_prompt prompt_of
is_response_inadequate p stopped_early messages r =
    let text = full_prompt r.messages in
    let prompt = prompt_of messages in
    if is_empty text
    then true
    else if stopped_early
    then true
    else if leb (length text) max_refusal_response_chars && p.refusal_patterns text
    then true
    else if ltb (length text) min_adequate_response_chars
    then true
    else not (is_empty prompt)
      && p.substantive_request prompt
      && ltb (length text) min_substantive_response_chars

-- `execute` asks without a finish reason.
abbrev pub inadequate_reply : Patterns → List Message → Response → Bool
inadequate_reply p = is_response_inadequate p false
