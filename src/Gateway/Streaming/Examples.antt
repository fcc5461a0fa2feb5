-- ===== src/Gateway/Streaming/Examples.antt =====
-- A stream of one client, in which a masked address comes back split over two chunks.
use llm_gateway_with_cost_co.Prelude.{
  arith, Bool, List, String, eq_iff, false, none, refl, some, true, ◌∷◌, ◌≡◌, ◌≢◌, ◌⊎◌, [],
}
use llm_gateway_with_cost_co.Ledger.Examples.{start, alice, noon, digest}
use llm_gateway_with_cost_co.Router.Examples.{question, options, encode, local_model, hosted}
use llm_gateway_with_cost_co.Gateway.Streaming.{
  stream_generator, settle_stream, send_chunks, send_chunk, send_choice, send_tail, screen_text,
  release_tails, note_chunk, new_stream, ran_out, abandoned, Chunk, reserve_and_stream, streamed,
  not_streamed,
}
use llm_gateway_with_cost_co.Guardrails.{
  feed, flush, screen, release, sanitize_completion, redact, is_leak, some_leak, emit_boundary,
  hold_back, finished_secret, starters, secret_starters, GuardrailsPipeline,
}
use llm_gateway_with_cost_co.Guardrails.Patterns.{
  guardrails_pipeline, secret_patterns, leak_patterns,
}
use llm_gateway_with_cost_co.Regex.{
  ends, match_at, match_end, in_order, is_word, literal, any_of, at_least, times, optional,
  any_case, is_one_of, sub_from, search_from, starts_from,
}
use llm_gateway_with_cost_co.Pii.Restorer.{
  restore_text, restore_from, first_alternative, alternatives, longest_first, insert_by_length,
  placeholder_pattern, rpartition, last_underscore, strip_brackets, drop_brackets,
  drop_last_brackets, feed_text, flush_text, token_boundary, last_bracket, has_code,
}
use llm_gateway_with_cost_co.Text.{is_space, Text, codes}
use llm_gateway_with_cost_co.Gateway.Streaming.Accounts.{stream_accounts}
use llm_gateway_with_cost_co.Gateway.Streaming.Reached.{stream_generator-Reaches, Reaches}
use llm_gateway_with_cost_co.Gateway.Streaming.Texts.{written_text, sent_text}
use llm_gateway_with_cost_co.Table.{lookup}
use llm_gateway_with_cost_co.Adapter.{Adapter}
use llm_gateway_with_cost_co.Gateway.{ChatRequest, http_error}
use llm_gateway_with_cost_co.Pii.{CharTables}
use llm_gateway_with_cost_co.Gateway.Settlement.{IsCharged}
use llm_gateway_with_cost_co.Ledger.Budgets.{reset_periods}
use llm_gateway_with_cost_co.Ledger.Requests.{row_of}

abbrev request : ChatRequest
request = record { api_key = "alice"; request_id = "r1"; messages = question; options = options }

-- Code points beyond ASCII are not looked at in these texts.
abbrev ascii : CharTables
ascii = record { wide_word = λ c. false; wide_digit = λ c. none }

abbrev pipeline : GuardrailsPipeline
pipeline = guardrails_pipeline (λ c. false)

abbrev mapping : List (Text × Text)
mapping = (codes "[EMAIL_1]", codes "a@b.co") ∷ []

abbrev piece : Text → Bool → Chunk
piece t finished = record {
  model = some "gpt-4o";
  usage = none;
  choice = some (record { content = t; finished = finished });
  others = [];
}

abbrev chunks : List Chunk
chunks = piece (codes "to [EMA") false ∷ piece (codes "IL_1] now") false ∷ piece [] true ∷ []

abbrev adapters : List Adapter
adapters = local_model ∷ hosted ∷ []

stream_sent :
    sent_text
      (stream_generator pipeline ascii encode adapters request 3 20 mapping "openai" chunks
        ran_out).0
    ≡ codes "to a@b.co now"
unfolding stream_generator settle_stream send_chunks send_chunk send_choice send_tail screen_text
    release_tails note_chunk feed flush screen release sanitize_completion redact is_leak some_leak
    emit_boundary hold_back finished_secret starters secret_starters guardrails_pipeline
    secret_patterns leak_patterns ends match_at match_end in_order is_word literal any_of at_least
    times optional any_case is_one_of sub_from search_from starts_from restore_text restore_from
    first_alternative alternatives longest_first insert_by_length placeholder_pattern rpartition
    last_underscore strip_brackets drop_brackets drop_last_brackets feed_text flush_text
    token_boundary last_bracket has_code is_space
stream_sent = refl

id_named : ◌≢◌ {A = String} "r1" ""
id_named e = ground (arith, e, eq_iff "r1" "")

stream_accounts_example :
    let generated =
      stream_generator pipeline ascii encode adapters request 3 20 mapping "openai" chunks
        abandoned in
    let (reply, s') = reserve_and_stream digest noon request 3 generated start in
    ((reply ≡ streamed generated.0)
      × IsCharged
          (digest "alice")
          "r1"
          (generated.1).cost
          (reset_periods noon alice)
          (row_of digest generated.1)
          s')
    ⊎ ((reply ≡ not_streamed (http_error 429))
        × (lookup (digest "alice") s'.budgets ≡ some (reset_periods noon alice)))
unfolding lookup
stream_accounts_example =
    stream_accounts pipeline ascii encode adapters digest noon request 3 20 mapping "openai" chunks
      abandoned alice start refl refl id_named

stream_generator-Reaches_example :
    let looped = send_chunks pipeline ascii "openai" chunks (new_stream mapping) in
    let generated =
      stream_generator pipeline ascii encode adapters request 3 20 mapping "openai" chunks
        ran_out in
    ((send_tail pipeline ascii looped.2).1.output_filter.leaked ≡ true)
    ⊎ Reaches pipeline ascii mapping (written_text chunks) generated.0
stream_generator-Reaches_example =
    stream_generator-Reaches pipeline ascii encode adapters request 3 20 mapping "openai" chunks
