-- ===== src/Gateway.antt =====
-- The part of `chat_completions` (gateway/main.py) between a miss of the cache and the record of the
-- spend, without streaming: the estimate, the reservation, the router's answer, and the settlement.
-- Gateway/Endpoint has what stands before and after it. The ledger's queue is taken as
-- empty, so that a record is written at once.
pub mod Settlement
mod Misses
pub mod Estimate
mod Streaming
mod Answers
mod Endpoint
mod Examples
use llm_gateway_with_cost_co.Prelude.{
  ℕ, Bool, List, String, get_or, if◌then◌else◌, inl, inr, ltb, pos, some, ◌+◌, ◌∷◌, ◌⊎◌, [],
}
use llm_gateway_with_cost_co.Adapter.{
  Response, Encoder, Message, Adapter, calculate_cost, count_prompt_tokens,
}
use llm_gateway_with_cost_co.Router.{
  RouteError, RouterState, Options, RouterConfig, context_length_exceeded, deadline_exceeded,
  no_available_backend, raised, routed,
}
use llm_gateway_with_cost_co.Ledger.{Error, Store, daily_exceeded, monthly_exceeded, Clock, err, ok}
use llm_gateway_with_cost_co.Ledger.Requests.{Spend, record_request}
use llm_gateway_with_cost_co.Router.Execute.{Backends, execute}
use llm_gateway_with_cost_co.Router.Ranking.{get_ranked_adapters}
use llm_gateway_with_cost_co.Text.{is_empty}
use llm_gateway_with_cost_co.Ledger.Budgets.{check_and_reserve_budget}

pub record Gateway : Type 0 where
  pub store : Store
  pub router : RouterState

-- What of the request's body reaches the code here.
pub record ChatRequest : Type 0 where
  pub api_key : String
  pub request_id : String
  pub messages : List Message
  pub options : Options

pub data ChatReply : Type 0 where
  completed : Response → ChatReply
  http_error : ℕ → ChatReply
  -- an exception of the ledger that no handler names
  unhandled : Error → ChatReply

abbrev pub unit_price : Adapter → ℕ
unit_price a = a.cost_per_1k_prompt + a.cost_per_1k_completion

-- `max(ranked_adapters, key=...)`: the first of the greatest.
pub costliest : Adapter → List Adapter → Adapter
costliest best [] = best
costliest best (a ∷ ranked) =
    costliest (if ltb (unit_price best) (unit_price a) then a else best) ranked

abbrev pub default_max_tokens : ℕ
default_max_tokens = 256

pub estimated_cost : Encoder → ChatRequest → List Adapter → ℕ
unfolding costliest
estimated_cost encode req [] = 0
estimated_cost encode req (a ∷ ranked) =
    let target = costliest a ranked in
    calculate_cost target (count_prompt_tokens encode target req.messages)
      (get_or req.options.max_tokens default_max_tokens)

-- The status for what the router raises.
pub router_status : RouteError → ℕ
router_status (context_length_exceeded _ _ _) = 400
router_status deadline_exceeded = 504
router_status no_available_backend = 503

-- The status for what the ledger raises: only a budget that is exceeded has a handler.
pub ledger_reply : Error → ChatReply
ledger_reply daily_exceeded = http_error 429
ledger_reply monthly_exceeded = http_error 429
ledger_reply e = unhandled e

-- The record of an answer, against the reservation.
pub settlement : ChatRequest → ℕ → Response → Spend
settlement req estimated r = record {
  api_key = req.api_key;
  req_id = req.request_id;
  backend = r.backend_id;
  model = r.model;
  prompt_tokens = r.prompt_tokens;
  comp_tokens = r.completion_tokens;
  cost = pos r.cost_usd;
  latency = r.latency_ms;
  reserved_cost = pos estimated;
}

module _ (digest : String → String) (encode : Encoder) (is_complex : List Message → Bool)
    (inadequate : List Message → Response → Bool) (c : RouterConfig) (backends : Backends)
    (clock : Clock) where
  -- The request's estimate, or the status with which it ends here.
  pub preflight : ChatRequest → RouterState → (ℕ ⊎ ℕ) × RouterState
  unfolding estimated_cost
  preflight req s =
      let (ranked, s') =
        get_ranked_adapters encode is_complex c clock.now req.messages req.options s in
      elim ranked [
        | routed adapters ↦ (inr (estimated_cost encode req adapters), s')
        | raised e ↦ elim e [
          | no_available_backend ↦ (inr 0, s')
          | deadline_exceeded ↦ (inr 0, s')
          | context_length_exceeded a b d ↦ (inl 400, s')
        ]
      ]

  -- What follows the reservation. An error of the router leaves the ledger as it is.
  pub answer : ChatRequest → ℕ → Gateway → ChatReply × Gateway
  unfolding router_status settlement
  answer req estimated g =
      let (result, run) =
        execute encode is_complex inadequate c backends clock.now req.messages req.options
          g.router in
      elim result [
        | raised e ↦ (http_error (router_status e), record g { router = run.router })
        | routed r ↦ (
          completed r,
          record {
            store = (record_request digest (settlement req estimated r) g.store).1;
            router = run.router;
          },
        )
      ]

  -- The reservation, and the answer if it is granted.
  pub reserve_and_answer : ChatRequest → ℕ → Gateway → ChatReply × Gateway
  unfolding answer ledger_reply
  reserve_and_answer req estimated g =
      let (reserved, store') =
        check_and_reserve_budget digest clock req.api_key (pos estimated) (some req.request_id)
          g.store in
      elim reserved [
        | err e ↦ (ledger_reply e, record g { store = store' })
        | ok b ↦ answer req estimated (record g { store = store' })
      ]

  -- From a miss of the cache to the record of the spend
  pub chat_on_miss : ChatRequest → Gateway → ChatReply × Gateway
  unfolding preflight reserve_and_answer
  chat_on_miss req g =
      let (estimate, s') = preflight req g.router in
      elim estimate [
        | inl status ↦ (http_error status, record g { router = s' })
        | inr estimated ↦ reserve_and_answer req estimated (record g { router = s' })
      ]
