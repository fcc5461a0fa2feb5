-- ===== src/Gateway/Misses.antt =====
-- What a request that misses the cache (gateway/main.py) leaves in the ledger, however it ends.
use llm_gateway_with_cost_co.Prelude.{
  Bool, List, String, inl, inr, none, pos, refl, some, ℕ, ◌≡◌, ◌⊎◌, ap, ◌≢◌,
}
use llm_gateway_with_cost_co.Adapter.{Encoder, Message, Response, Adapter}
use llm_gateway_with_cost_co.Ledger.{Clock, Budget, RequestRow, Store}
use llm_gateway_with_cost_co.Ledger.Budgets.{add_spend, reset_periods}
use llm_gateway_with_cost_co.Table.{lookup, lookup-insert_self}
use llm_gateway_with_cost_co.Router.{
  RouteError, Routed, RouterConfig, RouterState, context_length_exceeded, deadline_exceeded,
  no_available_backend, raised, routed,
}
use llm_gateway_with_cost_co.Ledger.Budgets.Limits.{IsWithin, reserve_holds}
use llm_gateway_with_cost_co.Router.Execute.{Backends, execute}
use llm_gateway_with_cost_co.Gateway.{
  ChatReply, ChatRequest, Gateway, answer, chat_on_miss, completed, estimated_cost, http_error,
  ledger_reply, preflight, reserve_and_answer, router_status, settlement,
}
use llm_gateway_with_cost_co.Gateway.Estimate.{IsEstimate, estimated_cost-IsEstimate}
use llm_gateway_with_cost_co.Router.Ranking.{get_ranked_adapters}
use llm_gateway_with_cost_co.Ledger.Requests.{record_request, row_of}
use llm_gateway_with_cost_co.Router.Ranking.Failing.{Routed-cases, ranking_in_time}
use llm_gateway_with_cost_co.Gateway.Settlement.{IsCharged, IsHeld, spend_charges}

-- What a client is told of each failure of the router: 400 for a prompt that is too long, 504 for a
-- lack of time, 503 for a lack of backends.
abbrev pub failure_status : RouteError → ℕ
failure_status (context_length_exceeded a d e) = 400
failure_status deadline_exceeded = 504
failure_status no_available_backend = 503

router_status_lem : (e : RouteError) → router_status e ≡ failure_status e
unfolding router_status
router_status_lem (context_length_exceeded a d e) = refl
router_status_lem deadline_exceeded = refl
router_status_lem no_available_backend = refl

module _ (digest : String → String) (encode : Encoder) (is_complex : List Message → Bool)
    (inadequate : List Message → Response → Bool) (c : RouterConfig) (backends : Backends)
    (clock : Clock) (req : ChatRequest) where
  -- What the ranking gives the estimate; the request is executed in the state after it.
  abbrev pub ranking : RouterState → Routed (List Adapter) × RouterState
  ranking s = get_ranked_adapters encode is_complex c clock.now req.messages req.options s

  abbrev pub execution : RouterState → Routed Response
  execution s =
      (execute encode is_complex inadequate c backends clock.now req.messages req.options
        (ranking s).1).0

  -- The price on the costliest ranked backend, or 0 where none is available
  abbrev pub IsPriced : RouterState → ℕ → Type 0
  IsPriced s n =
      ((ranked : List Adapter) × ((ranking s).0 ≡ routed ranked) × IsEstimate encode req ranked n)
      ⊎ (((ranking s).0 ≡ raised no_available_backend) × (n ≡ 0))

  abbrev pub answer_row : Response → RequestRow
  answer_row r = record {
    api_key = digest req.api_key;
    backend = r.backend_id;
    model = r.model;
    prompt_tokens = r.prompt_tokens;
    completion_tokens = r.completion_tokens;
    cost_usd = pos r.cost_usd;
    latency_ms = r.latency_ms;
  }

  -- How a miss of the cache may end, for a client with the row `b`.
  pub data MissOutcome (b : Budget) (g : Gateway) (reply : ChatReply) (after : Store) : Type 0 where
    too_long :
        (a d e : ℕ)
        → (ranking g.router).0 ≡ raised (context_length_exceeded a d e)
        → reply ≡ http_error 400
        → after ≡ g.store
        → MissOutcome b g reply after
    refused :
        (n : ℕ)
        → IsPriced g.router n
        → (IsWithin (add_spend (pos n) (reset_periods clock b)) → ⊥)
        → reply ≡ http_error 429
        → lookup (digest req.api_key) after.budgets ≡ some (reset_periods clock b)
        → after.reservations ≡ g.store.reservations
        → after.requests ≡ g.store.requests
        → MissOutcome b g reply after
    still_held :
        (n : ℕ) (e : RouteError)
        → IsPriced g.router n
        → execution g.router ≡ raised e
        → reply ≡ http_error (failure_status e)
        → IsWithin (add_spend (pos n) (reset_periods clock b))
        → IsHeld (digest req.api_key) req.request_id clock (pos n) (reset_periods clock b) after
        → MissOutcome b g reply after
    charged :
        (n : ℕ) (r : Response)
        → IsPriced g.router n
        → IsWithin (add_spend (pos n) (reset_periods clock b))
        → execution g.router ≡ routed r
        → reply ≡ completed r
        → IsCharged
            (digest req.api_key)
            req.request_id
            (pos r.cost_usd)
            (reset_periods clock b)
            (answer_row r)
            after
        → MissOutcome b g reply after

  settle_charges :
      (estimated : ℕ) (r : Response) (b : Budget) (s : Store)
      → IsHeld (digest req.api_key) req.request_id clock (pos estimated) b s
      → IsCharged
          (digest req.api_key)
          req.request_id
          (pos r.cost_usd)
          b
          (answer_row r)
          (record_request digest (settlement req estimated r) s).1
  unfolding record_request settlement row_of
  settle_charges estimated r b s h = spend_charges digest clock (settlement req estimated r) b s h

  answer-MissOutcome :
      (estimated : ℕ) (b : Budget) (g : Gateway) (s : Store)
      → IsPriced g.router estimated
      → IsWithin (add_spend (pos estimated) (reset_periods clock b))
      → IsHeld (digest req.api_key) req.request_id clock (pos estimated) (reset_periods clock b) s
      → let (reply, g') =
          answer digest encode is_complex inadequate c backends clock req estimated
            (record { store = s; router = (ranking g.router).1 }) in
        MissOutcome b g reply g'.store
  unfolding answer
  answer-MissOutcome estimated b g s priced within h = elim (Routed-cases (execution g.router)) [
    | inl (e, q) ↦
        rw (q, answer)
          (still_held estimated e priced q (ap http_error (router_status_lem e)) within h)
    | inr (r, q) ↦
        rw (q, answer)
          (charged estimated r priced within q refl
            (settle_charges estimated r (reset_periods clock b) s h))
  ]

  -- The ledger's part of a request, once it is estimated.
  reserved-MissOutcome :
      (estimated : ℕ) (b : Budget) (g : Gateway)
      → IsPriced g.router estimated
      → lookup (digest req.api_key) g.store.budgets ≡ some b
      → lookup req.request_id g.store.requests ≡ none
      → req.request_id ≢ ""
      → let (reply, g') =
          reserve_and_answer digest encode is_complex inadequate c backends clock req estimated
            (record g { router = (ranking g.router).1 }) in
        MissOutcome b g reply g'.store
  unfolding reserve_and_answer ledger_reply
  reserved-MissOutcome estimated b g priced e new named =
      elim (reserve_holds digest clock req.api_key (pos estimated) req.request_id g.store b e
        named) [
          | inl (ok_now, row, hold, same, within) ↦
              rw (ok_now, reserve_and_answer)
                (answer-MissOutcome estimated b g _ priced within (
                  row,
                  rw (hold) (lookup-insert_self req.request_id _ g.store.reservations),
                  rw (same) new,
                ))
          | inr (inl daily, row, holds, rows, over) ↦
              rw (daily, reserve_and_answer) (refused estimated priced over refl row holds rows)
          | inr (inr monthly, row, holds, rows, over) ↦
              rw (monthly, reserve_and_answer) (refused estimated priced over refl row holds rows)
        ]

  module _ (s : RouterState) where
    preflight-routed :
        (ranked : List Adapter)
        → (ranking s).0 ≡ routed ranked
        → preflight digest encode is_complex inadequate c backends clock req s
          ≡ (inr (estimated_cost encode req ranked), (ranking s).1)
    unfolding preflight
    preflight-routed ranked q = rw (q, preflight) refl

    preflight-none_available :
        (ranking s).0 ≡ raised no_available_backend
        → preflight digest encode is_complex inadequate c backends clock req s
          ≡ (inr 0, (ranking s).1)
    unfolding preflight
    preflight-none_available q = rw (q, preflight) refl

    preflight-too_long :
        (a d x : ℕ)
        → (ranking s).0 ≡ raised (context_length_exceeded a d x)
        → preflight digest encode is_complex inadequate c backends clock req s
          ≡ (inl 400, (ranking s).1)
    unfolding preflight
    preflight-too_long a d x q = rw (q, preflight) refl

  chat_on_miss-estimated :
      (g : Gateway) (n : ℕ)
      → preflight digest encode is_complex inadequate c backends clock req g.router
        ≡ (inr n, (ranking g.router).1)
      → chat_on_miss digest encode is_complex inadequate c backends clock req g
        ≡ reserve_and_answer digest encode is_complex inadequate c backends clock req n
            (record g { router = (ranking g.router).1 })
  unfolding chat_on_miss
  chat_on_miss-estimated g n q =
      let state = ap (λ (r : (ℕ ⊎ ℕ) × RouterState). r.1) q in
      rw (ap (λ (r : (ℕ ⊎ ℕ) × RouterState). r.0) q, chat_on_miss)
        (ap
          (λ (s : RouterState).
            reserve_and_answer digest encode is_complex inadequate c backends clock req n
              (record g { router = s }))
          state)

  -- Whatever the backends do.
  pub chat_on_miss-MissOutcome :
      (b : Budget) (g : Gateway)
      → lookup (digest req.api_key) g.store.budgets ≡ some b
      → lookup req.request_id g.store.requests ≡ none
      → req.request_id ≢ ""
      → let (reply, g') = chat_on_miss digest encode is_complex inadequate c backends clock req g in
        MissOutcome b g reply g'.store
  unfolding chat_on_miss
  chat_on_miss-MissOutcome b g e new named = elim (Routed-cases (ranking g.router).0) [
    | inl (context_length_exceeded x y z, q) ↦
        rw (preflight-too_long g.router x y z q, chat_on_miss) (too_long x y z q refl refl)
    | inl (deadline_exceeded, q) ↦
        absurd (ranking_in_time encode is_complex c clock.now req.messages req.options g.router q)
    | inl (no_available_backend, q) ↦
        rw (chat_on_miss-estimated g 0 (preflight-none_available g.router q))
          (reserved-MissOutcome 0 b g (inr (q, refl)) e new named)
    | inr (ranked, q) ↦
        rw
          (chat_on_miss-estimated g (estimated_cost encode req ranked)
            (preflight-routed g.router ranked q))
          (reserved-MissOutcome (estimated_cost encode req ranked) b g
            (inl (ranked, q, estimated_cost-IsEstimate encode req ranked)) e new named)
  ]
