-- ===== src/Transformer/Examples.antt =====
-- A conversation with two user messages in a row, for Anthropic.
use llm_gateway_with_cost_co.Prelude.{
  List, false, if◌then◌else◌, negsuc, pos, refl, some, ◌++◌, ◌∷◌, ◌≡◌, [],
}
use llm_gateway_with_cost_co.Transformer.{
  openai_clean_kwargs, Arguments, openai_to_anthropic, text_value, add_turns, float_value,
  int_value, add_turn, none_value, system_prompts, blank_line,
}
use llm_gateway_with_cost_co.Adapter.{Message}
use llm_gateway_with_cost_co.Text.{is_empty, codes, join}
use llm_gateway_with_cost_co.Transformer.Turns.{
  Alternates, contents_of, turns_of, Within, openai_to_anthropic_turns,
}
use llm_gateway_with_cost_co.Table.{lookup}

abbrev messages : List Message
messages =
    record { role = "system"; content = codes "be kind" }
    ∷ record { role = "user"; content = codes "hi" }
    ∷ record { role = "user"; content = codes "there" }
    ∷ record { role = "assistant"; content = codes "hello" }
    ∷ []

abbrev kwargs : Arguments
kwargs =
    ("temperature", float_value (pos 1800))
    ∷ ("stop", text_value (codes "end"))
    ∷ ("top_p", int_value (negsuc 0))
    ∷ []

payload_of_messages : openai_to_anthropic messages kwargs ≡ record {
  messages =
      record { role = "user"; content = codes "hi" ++ blank_line ++ codes "there" }
      ∷ record { role = "assistant"; content = codes "hello" }
      ∷ [];
  max_tokens = pos 1024;
  temperature = some (pos 1000);
  top_p = some (pos 0);
  stop_sequences = some (codes "end" ∷ []);
  system = some (codes "be kind");
}
unfolding openai_to_anthropic add_turns add_turn system_prompts join lookup
payload_of_messages = refl

clean_of_kwargs :
    openai_clean_kwargs (("model", text_value []) ∷ ("seed", none_value) ∷ kwargs) ≡ kwargs
unfolding openai_clean_kwargs
clean_of_kwargs = refl

openai_to_anthropic_turns_example :
    let payload = openai_to_anthropic messages kwargs in
    (is_empty payload.messages ≡ false)
    × Alternates payload.messages
    × (join blank_line (contents_of payload.messages) ≡ (
        if is_empty (turns_of messages)
        then codes "."
        else join blank_line (contents_of (turns_of messages))))
    × Within payload.temperature
    × Within payload.top_p
openai_to_anthropic_turns_example = openai_to_anthropic_turns messages kwargs
