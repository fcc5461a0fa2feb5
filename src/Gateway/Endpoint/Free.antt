-- ===== src/Gateway/Endpoint/Free.antt =====
-- What a hit of the cache costs (gateway/main.py, gateway/ledger/store.py): nothing, and no backend is
-- called; the record of a hit is written once for each cached answer.
use mathlib.Core.Option
use llm_gateway_with_cost_co.Prelude.{
  Bool, List, Option, String, ap, arith, false, get_or, inl, inr, none, pos, refl, some, ℕ, ℤ, ◌+ℤ◌,
  ◌-ℤ◌, ◌∙◌, ◌≡◌, ◌||◌, Option-cases, negsuc,
}
use llm_gateway_with_cost_co.Gateway.{ChatRequest}
use llm_gateway_with_cost_co.Gateway.Answers.{Completion, cached_answer}
use llm_gateway_with_cost_co.Gateway.Endpoint.{
  Service, answered, hit_spend, chat_completions, serve_hit, serve_masked,
}
use llm_gateway_with_cost_co.Adapter.{Encoder, Message, Response}
use llm_gateway_with_cost_co.Cache.{Fingerprint, Kwargs, get}
use llm_gateway_with_cost_co.Guardrails.{GuardrailsPipeline}
use llm_gateway_with_cost_co.Ledger.{Budget, Clock, Store}
use llm_gateway_with_cost_co.Ledger.Budgets.{add_spend}
use llm_gateway_with_cost_co.Ledger.Requests.{budgets-record, record_request, row_of}
use llm_gateway_with_cost_co.Normalize.{UnicodeForms}
use llm_gateway_with_cost_co.Pii.{CharTables}
use llm_gateway_with_cost_co.Pii.Vault.{mask_messages}
use llm_gateway_with_cost_co.Router.{RouterConfig}
use llm_gateway_with_cost_co.Router.Execute.{Backends}
use llm_gateway_with_cost_co.Screening.{refuses_messages}
use llm_gateway_with_cost_co.Table.{lookup, lookup-insert_self}
use llm_gateway_with_cost_co.Text.{Text, is_empty}

nothing_more : (x : ℤ) → x +ℤ (pos 0 -ℤ pos 0) ≡ x
unfolding ◌+ℤ◌ ◌-ℤ◌
nothing_more (pos n) = ground arith
nothing_more (negsuc n) = ground arith

add_spend_nothing : (b : Budget) → add_spend (pos 0 -ℤ pos 0) b ≡ b
unfolding add_spend
add_spend_nothing b = rw (nothing_more b.spend_today, nothing_more b.spend_month) refl

map-add_spend_nothing : (row : Option Budget) → Option.map (add_spend (pos 0 -ℤ pos 0)) row ≡ row
map-add_spend_nothing none = refl
map-add_spend_nothing (some b) = ap some (add_spend_nothing b)

module _ (digest : String → String) (api_key : String) (stored : Completion) (s : Store) where
  hit_budgets :
      (key : String)
      → lookup key (record_request digest (hit_spend api_key stored) s).1.budgets
        ≡ lookup key s.budgets
  unfolding hit_spend record_request
  hit_budgets key = elim (Option-cases (lookup stored.id s.requests)) [
    | inl fresh ↦
        budgets-record digest key (hit_spend api_key stored) s fresh
        ∙ ground (arith, map-add_spend_nothing (lookup key s.budgets))
    | inr (row, known) ↦ rw known refl
  ]

  hit_row :
      lookup stored.id (record_request digest (hit_spend api_key stored) s).1.requests
      ≡ some (get_or (lookup stored.id s.requests) (row_of digest (hit_spend api_key stored)))
  unfolding hit_spend record_request
  hit_row = elim (Option-cases (lookup stored.id s.requests)) [
    | inl fresh ↦
        rw fresh
          (lookup-insert_self stored.id (row_of digest (hit_spend api_key stored)) s.requests)
    | inr (row, known) ↦ rw known known
  ]

module _ (digest : String → String) (encode : Encoder) (is_complex : List Message → Bool)
    (inadequate : List Message → Response → Bool) (c : RouterConfig) (backends : Backends)
    (clock : Clock) (forms : UnicodeForms) (wide : ℕ → Bool) (p : GuardrailsPipeline)
    (tables : CharTables) (loads : Text → Bool) (fingerprint : Fingerprint) (now done : ℕ) where
  serve_on_hit :
      (req : ChatRequest) (kwargs : Kwargs) (s : Service) (stored : Completion)
      → is_empty req.messages || refuses_messages forms wide req.messages ≡ false
      → (get fingerprint now (mask_messages tables req.messages).0 kwargs s.prompt_cache).0
        ≡ some stored
      → chat_completions digest encode is_complex inadequate c backends clock forms wide p tables
          loads fingerprint now done req kwargs s
        ≡ serve_hit digest tables req.api_key
            (mask_messages tables req.messages).1
            stored
            (record s {
              prompt_cache =
                  (get fingerprint now
                    (mask_messages tables req.messages).0
                    kwargs
                    s.prompt_cache).1;
            })
  unfolding chat_completions serve_masked
  serve_on_hit req kwargs s stored passes hit = rw passes (rw (hit, serve_masked) refl)

  -- A request that passes the checks and finds an answer in the cache is answered with it, restored
  -- through the request's own mapping. The router is left as it was, and so is every client's budget.
  -- The requests then have a row under the id of the cached answer: the one that stood there, or if
  -- there was none, the row of this hit.
  pub hit_costs_nothing :
      (req : ChatRequest) (kwargs : Kwargs) (s : Service) (stored : Completion) (key : String)
      → is_empty req.messages || refuses_messages forms wide req.messages ≡ false
      → (get fingerprint now (mask_messages tables req.messages).0 kwargs s.prompt_cache).0
        ≡ some stored
      → let (reply, s') =
          chat_completions digest encode is_complex inadequate c backends clock forms wide p tables
            loads fingerprint now done req kwargs s in
        let before = s.gateway.store in
        let after = s'.gateway.store in
        (reply ≡ answered (cached_answer tables (mask_messages tables req.messages).1 stored))
        × (s'.gateway.router ≡ s.gateway.router)
        × (lookup key after.budgets ≡ lookup key before.budgets)
        × (lookup stored.id after.requests
            ≡ some (
                get_or
                  (lookup stored.id before.requests)
                  (row_of digest (hit_spend req.api_key stored))))
  unfolding serve_hit
  hit_costs_nothing req kwargs s stored key passes hit =
      rw (serve_on_hit req kwargs s stored passes hit) (
        refl,
        refl,
        hit_budgets digest req.api_key stored s.gateway.store key,
        hit_row digest req.api_key stored s.gateway.store,
      )
