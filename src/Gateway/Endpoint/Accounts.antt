-- ===== src/Gateway/Endpoint/Accounts.antt =====
-- What a request without streaming (gateway/main.py) leaves in the ledger, however it ends.
use llm_gateway_with_cost_co.Prelude.{
  Bool, Bool-cases, List, Option, Option-cases, String, false, get_or, inl, inr, none, pos, refl,
  some, true, ℕ, ◌∙◌, ◌≡◌, ◌≢◌, ◌||◌,
}
use llm_gateway_with_cost_co.Gateway.{ChatReply, ChatRequest, Gateway}
use llm_gateway_with_cost_co.Gateway.Settlement.{IsCharged, IsHeld}
use llm_gateway_with_cost_co.Gateway.Misses.{
  IsPriced, MissOutcome, answer_row, charged, chat_on_miss-MissOutcome, execution, failure_status,
  ranking, refused, still_held, too_long,
}
use llm_gateway_with_cost_co.Gateway.Answers.{
  Completion, cached_answer, deliver, masked_answer, restore_completion, sanitized_contents,
}
use llm_gateway_with_cost_co.Gateway.Endpoint.{
  Served, Service, answered, chat_completions, hit_spend, serve_masked, serve_reply, served,
  turned_away,
}
use llm_gateway_with_cost_co.Gateway.Endpoint.Free.{hit_costs_nothing}
use llm_gateway_with_cost_co.Adapter.{Encoder, Message, Response}
use llm_gateway_with_cost_co.Cache.{Fingerprint, Kwargs, PromptCache, get}
use llm_gateway_with_cost_co.Guardrails.{GuardrailsPipeline, is_leak}
use llm_gateway_with_cost_co.Ledger.{Budget, Clock, Store}
use llm_gateway_with_cost_co.Ledger.Budgets.{add_spend, reset_periods}
use llm_gateway_with_cost_co.Ledger.Budgets.Limits.{IsWithin}
use llm_gateway_with_cost_co.Ledger.Requests.{row_of}
use llm_gateway_with_cost_co.Normalize.{UnicodeForms}
use llm_gateway_with_cost_co.Pii.{CharTables}
use llm_gateway_with_cost_co.Pii.Vault.{mask_messages}
use llm_gateway_with_cost_co.Router.{
  RouteError, RouterConfig, context_length_exceeded, raised, routed,
}
use llm_gateway_with_cost_co.Router.Execute.{Backends}
use llm_gateway_with_cost_co.Screening.{refuses_messages}
use llm_gateway_with_cost_co.Table.{lookup}
use llm_gateway_with_cost_co.Text.{Text, codes, is_empty, join}

module _ (digest : String → String) (encode : Encoder) (is_complex : List Message → Bool)
    (inadequate : List Message → Response → Bool) (c : RouterConfig) (backends : Backends)
    (clock : Clock) (forms : UnicodeForms) (wide : ℕ → Bool) (p : GuardrailsPipeline)
    (tables : CharTables) (loads : Text → Bool) (fingerprint : Fingerprint) (now : ℕ)
    (req : ChatRequest) (kwargs : Kwargs) where
  abbrev pub masked : ChatRequest
  masked = record req { messages = (mask_messages tables req.messages).0 }

  abbrev pub mapping : List (Text × Text)
  mapping = (mask_messages tables req.messages).1

  abbrev pub reading : Service → Option Completion
  reading s = (get fingerprint now masked.messages kwargs s.prompt_cache).0

  abbrev pub leaks : Response → Bool
  leaks r = is_leak p (join (codes "\n") (sanitized_contents p r.messages))

  -- How a request may end, for a client with the row `b`: the reply, and the ledger after it.
  pub data Accounted (b : Budget) (s : Service) (reply : Served) (after : Store) : Type 0 where
    rejected :
        is_empty req.messages || refuses_messages forms wide req.messages ≡ true
        → reply ≡ turned_away 400
        → after ≡ s.gateway.store
        → Accounted b s reply after
    from_cache :
        (stored : Completion)
        → reading s ≡ some stored
        → reply ≡ answered (cached_answer tables mapping stored)
        → lookup (digest req.api_key) after.budgets ≡ some b
        → lookup stored.id after.requests
          ≡ some (
              get_or
                (lookup stored.id s.gateway.store.requests)
                (row_of digest (hit_spend req.api_key stored)))
        → Accounted b s reply after
    over_window :
        (a d e : ℕ)
        → (ranking digest encode is_complex inadequate c backends clock masked s.gateway.router).0
          ≡ raised (context_length_exceeded a d e)
        → reply ≡ turned_away 400
        → after ≡ s.gateway.store
        → Accounted b s reply after
    over_budget :
        (n : ℕ)
        → IsPriced digest encode is_complex inadequate c backends clock masked s.gateway.router n
        → (IsWithin (add_spend (pos n) (reset_periods clock b)) → ⊥)
        → reply ≡ turned_away 429
        → lookup (digest req.api_key) after.budgets ≡ some (reset_periods clock b)
        → after.reservations ≡ s.gateway.store.reservations
        → after.requests ≡ s.gateway.store.requests
        → Accounted b s reply after
    unanswered :
        (n : ℕ) (e : RouteError)
        → IsPriced digest encode is_complex inadequate c backends clock masked s.gateway.router n
        → IsWithin (add_spend (pos n) (reset_periods clock b))
        → execution digest encode is_complex inadequate c backends clock masked s.gateway.router
          ≡ raised e
        → reply ≡ turned_away (failure_status e)
        → IsHeld (digest req.api_key) req.request_id clock (pos n) (reset_periods clock b) after
        → Accounted b s reply after
    withheld :
        (n : ℕ) (r : Response)
        → IsPriced digest encode is_complex inadequate c backends clock masked s.gateway.router n
        → IsWithin (add_spend (pos n) (reset_periods clock b))
        → execution digest encode is_complex inadequate c backends clock masked s.gateway.router
          ≡ routed r
        → leaks r ≡ true
        → reply ≡ turned_away 400
        → IsCharged
            (digest req.api_key)
            req.request_id
            (pos r.cost_usd)
            (reset_periods clock b)
            (answer_row digest encode is_complex inadequate c backends clock masked r)
            after
        → Accounted b s reply after
    sent :
        (n : ℕ) (r : Response)
        → IsPriced digest encode is_complex inadequate c backends clock masked s.gateway.router n
        → IsWithin (add_spend (pos n) (reset_periods clock b))
        → execution digest encode is_complex inadequate c backends clock masked s.gateway.router
          ≡ routed r
        → leaks r ≡ false
        → reply ≡ answered (restore_completion tables mapping (masked_answer p loads req.options r))
        → IsCharged
            (digest req.api_key)
            req.request_id
            (pos r.cost_usd)
            (reset_periods clock b)
            (answer_row digest encode is_complex inadequate c backends clock masked r)
            after
        → Accounted b s reply after

  module _ (done : ℕ) where
    serve_reply-Accounted :
        (b : Budget) (s : Service) (reply : ChatReply) (g : Gateway)
        (cache : PromptCache Completion)
        → MissOutcome digest encode is_complex inadequate c backends clock masked b s.gateway reply
            g.store
        → let (final, s') =
            serve_reply digest encode is_complex inadequate c backends clock forms wide p tables
              loads fingerprint now done masked kwargs mapping
              (reply, g)
              cache in
          Accounted b s final s'.gateway.store
    unfolding serve_reply deliver served
    serve_reply-Accounted b s reply g cache (too_long x y z q same kept) =
        rw same (over_window x y z q refl kept)
    serve_reply-Accounted b s reply g cache (refused n priced over same row holds rows) =
        rw same (over_budget n priced over refl row holds rows)
    serve_reply-Accounted b s reply g cache (still_held n e priced q same within held) =
        rw same (unanswered n e priced within q refl held)
    serve_reply-Accounted b s reply g cache (charged n r priced within q same paid) =
        rw same (elim (Bool-cases (leaks r)) [
          | inl leaky ↦ rw leaky (withheld n r priced within q leaky refl paid)
          | inr clean ↦ rw clean (sent n r priced within q clean refl paid)
        ])

    -- A request of a client with a budget, under an id that is not empty and not yet recorded, ends in
    -- one of these ways, however the backends behave. It has no message or an injection, or its masked
    -- prompt fits no window: status 400, and the ledger is as it was. It is found in the cache: the
    -- client's row is as it was, and there is a row under the id of the cached answer. It does not
    -- fit the budget at the price on the costliest ranked backend (0 if none is available): status 429,
    -- the client's row is only reset for a new period, and no hold or record is written. Otherwise it
    -- fits. Then the router fails, with the status of its failure: that price stays charged and stays
    -- held. Or a backend answers: the client's counters, reset for a new period, grow by exactly the
    -- answer's cost, the hold is gone and the record stands; an answer that leaks then ends with status
    -- 400, and any other is returned.
    pub chat_accounts :
        (b : Budget) (s : Service)
        → lookup (digest req.api_key) s.gateway.store.budgets ≡ some b
        → lookup req.request_id s.gateway.store.requests ≡ none
        → req.request_id ≢ ""
        → let (reply, s') =
            chat_completions digest encode is_complex inadequate c backends clock forms wide p
              tables loads fingerprint now done req kwargs s in
          Accounted b s reply s'.gateway.store
    unfolding chat_completions serve_masked
    chat_accounts b s e new named =
        elim (Bool-cases (is_empty req.messages || refuses_messages forms wide req.messages)) [
          | inl bad ↦ rw bad (rejected bad refl refl)
          | inr passes ↦ elim (Option-cases (reading s)) [
            | inr (stored, hit) ↦
                let facts =
                  hit_costs_nothing digest encode is_complex inadequate c backends clock forms wide
                    p tables loads fingerprint now done req kwargs s stored (digest req.api_key)
                    passes hit in
                from_cache stored hit facts.0 (facts.2 ∙ e) facts.3
            | inl miss ↦ rw passes (
                rw (miss, serve_masked)
                  (serve_reply-Accounted b s _ _ _ (
                    chat_on_miss-MissOutcome digest encode is_complex inadequate c backends clock
                      masked b s.gateway e new named)))
          ]
        ]
