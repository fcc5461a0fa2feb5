-- ===== src/Adapter.antt =====
-- What every backend adapter is and counts (gateway/adapters/base.py). A price is per thousand
-- tokens; money is counted in thousandths of the price's unit, so a cost is an exact product.
-- `encode` is the number of tokens that tiktoken's encoding of a name makes of a text.
use llm_gateway_with_cost_co.Prelude.{Bool, List, String, if◌then◌else◌, max, ℕ, ◌*◌, ◌+◌, ◌∷◌, []}
use llm_gateway_with_cost_co.Text.{Text, is_empty}

pub record Message : Type 0 where
  pub role : String
  pub content : Text

pub record Adapter : Type 0 where
  pub id : String
  pub model : String
  pub cost_per_1k_prompt : ℕ
  pub cost_per_1k_completion : ℕ
  pub context_length : ℕ
  pub capability_tier : ℕ
  pub capabilities : List String
  pub tokenizer_name : String
  pub token_overhead_per_message : ℕ

pub record Response : Type 0 where
  pub id : String
  pub backend_id : String
  pub model : String
  pub messages : List Message
  pub prompt_tokens : ℕ
  pub completion_tokens : ℕ
  pub cost_usd : ℕ
  pub latency_ms : ℕ
  pub is_fallback : Bool

abbrev pub reply_priming_tokens : ℕ
reply_priming_tokens = 3

-- tiktoken's `len(get_encoding(name).encode(text))`
abbrev pub Encoder : Type 0
Encoder = String → Text → ℕ

prompt_total : Encoder → Adapter → List Message → ℕ → ℕ
prompt_total encode a [] total = total
prompt_total encode a (m ∷ ms) total =
    prompt_total encode a ms
      (total + a.token_overhead_per_message + encode a.tokenizer_name m.content)

unfoldable pub count_prompt_tokens : Encoder → Adapter → List Message → ℕ
unfolding prompt_total
count_prompt_tokens encode a messages = max 1 (prompt_total encode a messages reply_priming_tokens)

pub count_completion_tokens : Encoder → Adapter → Text → ℕ
count_completion_tokens encode a text = if is_empty text then 0 else encode a.tokenizer_name text

pub count_tokens : Encoder → Adapter → List Message → Text → ℕ × ℕ
unfolding count_prompt_tokens count_completion_tokens
count_tokens encode a messages text =
    (count_prompt_tokens encode a messages, count_completion_tokens encode a text)

unfoldable pub calculate_cost : Adapter → ℕ → ℕ → ℕ
calculate_cost a prompt_tokens completion_tokens =
    prompt_tokens * a.cost_per_1k_prompt + completion_tokens * a.cost_per_1k_completion
