-- ===== src/Gateway/Endpoint/Examples.antt =====
-- A hit of the cache, found twice: the second one leaves no row behind.
use llm_gateway_with_cost_co.Prelude.{
  String, eq_iff, ◌≢◌, Bool, false, get_or, if◌then◌else◌, leb, map, none, pos, refl, some, ◌&&◌,
  ◌+◌, ◌∷◌, ◌≡◌, ◌||◌, [], ℕ, arith,
}
use llm_gateway_with_cost_co.Gateway.Endpoint.Free.{hit_costs_nothing}
use llm_gateway_with_cost_co.Gateway.Endpoint.Accounts.{Accounted, chat_accounts}
use llm_gateway_with_cost_co.Gateway.Endpoint.{Service, answered, hit_spend, chat_completions}
use llm_gateway_with_cost_co.Gateway.{ChatRequest}
use llm_gateway_with_cost_co.Gateway.Answers.{Completion, cached_answer}
use llm_gateway_with_cost_co.Ledger.Examples.{alice, digest, noon, start}
use llm_gateway_with_cost_co.Ledger.Requests.{record_request, row_of, write_request}
use llm_gateway_with_cost_co.Ledger.{duplicate_id, err}
use llm_gateway_with_cost_co.Router.Examples.{
  busy, config, encode, fresh_state, options, plain, poor,
}
use llm_gateway_with_cost_co.Cache.{Fingerprint, Kwargs, PromptCache, get, is_cacheable, set, unset}
use llm_gateway_with_cost_co.Cache.Replay.{get-set}
use llm_gateway_with_cost_co.Guardrails.{GuardrailsPipeline}
use llm_gateway_with_cost_co.Guardrails.Patterns.{guardrails_pipeline}
use llm_gateway_with_cost_co.Normalize.{
  matching_variants, fold_form, base_normalize, normalize_for_matching, normalize_aggressive,
  drop_invisible, replaced, intra_word_separators, leet_between_letters, leet_token, UnicodeForms,
}
use llm_gateway_with_cost_co.Screening.Patterns.{
  injection_patterns, discard_verbs, instruction_nouns, prior_qualifiers, phrase,
}
use llm_gateway_with_cost_co.Regex.{
  ends, match_at, in_order, is_word, literal, any_of, at_least, between, times, at_most,
  lazily_at_most, optional, any_case, is_one_of, sub_from, sub_by, search_from,
}
use llm_gateway_with_cost_co.Pii.{CharTables}
use llm_gateway_with_cost_co.Pii.Vault.{
  mask_messages, mask_one, mask_all, issue_all, issue, issue_new, seen_token, set_value, value_of,
  substitute, accepted, accepts, matches_from,
}
use llm_gateway_with_cost_co.Pii.Patterns.{
  pii_patterns, email, email_obfuscated, email_spaced, credit_card, iban, ssn, phone, ip_address,
  dob, passport, aws_key, jwt, bearer,
}
use llm_gateway_with_cost_co.Screening.{refuses_messages, some_injection, some_search}
use llm_gateway_with_cost_co.Table.{adjust, insert, lookup, remove}
use llm_gateway_with_cost_co.Text.{Text, codes, is_empty, is_space, strip}

abbrev forms : UnicodeForms
forms = record {
  nfkc = λ t. t;
  casefold = map (λ c. if leb b'A' c && leb c b'Z' then c + 32 else c);
}

abbrev narrow : ℕ → Bool
narrow c = false

abbrev ascii : CharTables
ascii = record { wide_word = narrow; wide_digit = λ c. none }

abbrev pipeline : GuardrailsPipeline
pipeline = guardrails_pipeline narrow

abbrev loads : Text → Bool
loads t = false

abbrev fingerprint : Fingerprint
fingerprint messages kwargs = if is_empty messages then "none" else "some"

abbrev request : ChatRequest
request = record {
  api_key = "alice";
  request_id = "r1";
  messages = record { role = "user"; content = codes "Hi" } ∷ [];
  options = options;
}

abbrev kwargs : Kwargs
kwargs = record { no_cache = false; cache_is_false = false; temperature = unset; items = [] }

abbrev stored : Completion
stored = record {
  id = "c1";
  model = "gpt-4o";
  choices = record { role = "assistant"; content = codes "Hello" } ∷ [];
  prompt_tokens = 5;
  completion_tokens = 7;
  total_tokens = 12;
}

abbrev empty_cache : PromptCache Completion
empty_cache = record {
  ttl_seconds = 300;
  max_entries = 2;
  max_cacheable_temperature = pos 1000;
  cache = [];
}

abbrev service : Service
service = record {
  gateway = record { store = start; router = fresh_state };
  prompt_cache = set fingerprint 10 request.messages kwargs stored empty_cache;
}

second_hit_is_refused :
    let once = (record_request digest (hit_spend "alice" stored) start).1 in
    record_request digest (hit_spend "bob" stored) once ≡ (err duplicate_id, once)
unfolding record_request write_request hit_spend lookup insert adjust remove
second_hit_is_refused = refl

passes : is_empty request.messages || refuses_messages forms narrow request.messages ≡ false
unfolding refuses_messages matching_variants fold_form base_normalize normalize_for_matching
    normalize_aggressive drop_invisible replaced intra_word_separators leet_between_letters
    leet_token injection_patterns some_injection some_search discard_verbs instruction_nouns
    prior_qualifiers phrase ends match_at in_order is_word any_of at_least times at_most
    lazily_at_most optional any_case is_one_of sub_from sub_by search_from is_space strip
passes = refl

nothing_masked : mask_messages ascii request.messages ≡ (request.messages, [])
unfolding mask_messages mask_all mask_one issue_all issue issue_new seen_token set_value value_of
    substitute accepted accepts matches_from pii_patterns email email_obfuscated email_spaced
    credit_card iban ssn phone ip_address dob passport aws_key jwt bearer ends match_at in_order
    is_word literal any_of at_least times at_most between optional any_case is_one_of is_space
nothing_masked = refl

found :
    (get fingerprint 200 (mask_messages ascii request.messages).0 kwargs service.prompt_cache).0
    ≡ some stored
unfolding is_cacheable
found = rw nothing_masked (
    get-set fingerprint 10 200 request.messages request.messages kwargs kwargs stored empty_cache
      (omega arith) refl refl refl (omega arith))

hit_costs_nothing_example :
    let (reply, s') =
      chat_completions digest encode plain poor config busy noon forms narrow pipeline ascii loads
        fingerprint 200 200 request kwargs service in
    (reply ≡ answered (cached_answer ascii (mask_messages ascii request.messages).1 stored))
    × (s'.gateway.router ≡ fresh_state)
    × (lookup "alice" s'.gateway.store.budgets ≡ lookup "alice" start.budgets)
    × (lookup "c1" s'.gateway.store.requests
        ≡ some (get_or (lookup "c1" start.requests) (row_of digest (hit_spend "alice" stored))))
hit_costs_nothing_example =
    hit_costs_nothing digest encode plain poor config busy noon forms narrow pipeline ascii loads
      fingerprint 200 200 request kwargs service stored "alice" passes found

id_named : ◌≢◌ {A = String} "r1" ""
id_named e = ground (arith, e, eq_iff "r1" "")

abbrev unread : Service
unread = record service { prompt_cache = empty_cache }

chat_accounts_example :
    let (reply, s') =
      chat_completions digest encode plain poor config busy noon forms narrow pipeline ascii loads
        fingerprint 200 200 request kwargs unread in
    Accounted digest encode plain poor config busy noon forms narrow pipeline ascii loads
      fingerprint 200 request kwargs alice unread reply s'.gateway.store
unfolding lookup
chat_accounts_example =
    chat_accounts digest encode plain poor config busy noon forms narrow pipeline ascii loads
      fingerprint 200 request kwargs 200 alice unread refl refl id_named
