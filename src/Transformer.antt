-- ===== src/Transformer.antt =====
-- The requests that gateway/adapters/transformer.py writes for the providers. A temperature is a
-- count of thousandths, and a keyword argument's value is what the code tells apart by its type.
use llm_gateway_with_cost_co.Prelude.{
  arith, Bool, List, Option, String, false, if◌then◌else◌, leb_ℤ, negsuc, none, not, pos, some,
  str_eq, sub_ℕ, suc, true, ℤ, ◌&&◌, ◌*◌, ◌++◌, ◌∷◌, ◌||◌, [],
}
mod Turns
mod Examples
use llm_gateway_with_cost_co.Text.{Text, is_empty, codes, join}
use llm_gateway_with_cost_co.Adapter.{Message}
use llm_gateway_with_cost_co.Table.{Table, lookup}

-- A list stands for the `str` of its items, a Boolean for the integer that it is.
pub data ArgumentValue : Type 0 where
  none_value : ArgumentValue
  text_value : Text → ArgumentValue
  int_value : ℤ → ArgumentValue
  float_value : ℤ → ArgumentValue
  texts_value : List Text → ArgumentValue
  other_value : ArgumentValue

abbrev pub Arguments : Type 0
Arguments = Table ArgumentValue

pub record AnthropicPayload : Type 0 where
  pub messages : List Message
  pub max_tokens : ℤ
  pub temperature : Option ℤ
  pub top_p : Option ℤ
  pub stop_sequences : Option (List Text)
  pub system : Option Text

abbrev pub blank_line : Text
blank_line = 10 ∷ 10 ∷ []

-- A turn of the same role as the last one is merged into it.
unfoldable pub add_turn : List Message → Message → List Message
add_turn [] m = m ∷ []
add_turn (x ∷ []) m =
    if str_eq x.role m.role
    then record { role = x.role; content = x.content ++ (blank_line ++ m.content) } ∷ []
    else x ∷ m ∷ []
add_turn (x ∷ y ∷ ys) m = x ∷ add_turn (y ∷ ys) m

abbrev pub is_turn : Message → Bool
is_turn m = str_eq m.role "user" || str_eq m.role "assistant"

-- The loop over the messages, for `anthropic_messages` and for `system_prompts`
unfoldable pub add_turns : List Message → List Message → List Message
add_turns turns [] = turns
add_turns turns (m ∷ ms) = add_turns (if is_turn m then add_turn turns m else turns) ms

unfoldable pub system_prompts : List Message → List Text
system_prompts [] = []
system_prompts (m ∷ ms) =
    let rest = system_prompts ms in
    if str_eq m.role "system" && not (is_empty m.content) then m.content ∷ rest else rest

-- At least one message of the user
abbrev pub or_dot : List Message → List Message
or_dot [] = record { role = "user"; content = codes "." } ∷ []
or_dot (m ∷ ms) = m ∷ ms

-- max(0.0, min(1.0, x)), in thousandths
abbrev pub clamp : ℤ → ℤ
clamp x =
    let low = if leb_ℤ x (pos 1000) then x else pos 1000 in if leb_ℤ (pos 0) low then low else pos 0

abbrev pub max_tokens_of : Option ArgumentValue → ℤ
max_tokens_of (some (int_value n)) = n
max_tokens_of _ = pos 1024

abbrev pub thousandths : ℤ → ℤ
thousandths (pos n) = pos (1000 * n)
thousandths (negsuc n) = sub_ℕ 0 (1000 * suc n)

abbrev pub clamped : Option ArgumentValue → Option ℤ
clamped (some (int_value n)) = some (clamp (thousandths n))
clamped (some (float_value x)) = some (clamp x)
clamped _ = none

abbrev pub stop_sequences_of : Option ArgumentValue → Option (List Text)
stop_sequences_of (some (text_value t)) = some (t ∷ [])
stop_sequences_of (some (texts_value ts)) = some ts
stop_sequences_of _ = none

abbrev pub if_any : Text → Option Text
if_any [] = none
if_any (c ∷ t) = some (c ∷ t)

unfoldable pub openai_to_anthropic : List Message → Arguments → AnthropicPayload
openai_to_anthropic messages kwargs = record {
  messages = or_dot (add_turns [] messages);
  max_tokens = max_tokens_of (lookup "max_tokens" kwargs);
  temperature = clamped (lookup "temperature" kwargs);
  top_p = clamped (lookup "top_p" kwargs);
  stop_sequences = stop_sequences_of (lookup "stop" kwargs);
  system = if_any (join blank_line (system_prompts messages));
}

abbrev pub is_none : ArgumentValue → Bool
is_none none_value = true
is_none _ = false

abbrev pub is_allowed : String → Bool
is_allowed k =
    str_eq k "temperature"
    || str_eq k "max_tokens"
    || str_eq k "top_p"
    || str_eq k "presence_penalty"
    || str_eq k "frequency_penalty"
    || str_eq k "stop"
    || str_eq k "user"
    || str_eq k "seed"
    || str_eq k "response_format"

unfoldable pub openai_clean_kwargs : Arguments → Arguments
openai_clean_kwargs [] = []
openai_clean_kwargs ((k, v) ∷ kwargs) =
    let rest = openai_clean_kwargs kwargs in
    if is_allowed k && not (is_none v) then (k, v) ∷ rest else rest
