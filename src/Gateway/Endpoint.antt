-- ===== src/Gateway/Endpoint.antt =====
-- `chat_completions` (gateway/main.py) without streaming, from the messages that came in: the checks,
-- the masking, the cache, and on a miss the reservation, the backends and the answer. The ledger's
-- queue is taken as empty: a record is written at once, and its worker only logs what goes wrong.
use llm_gateway_with_cost_co.Prelude.{
  Bool, List, String, if◌then◌else◌, inl, inr, none, pos, some, ℕ, ◌||◌, ◌⊎◌,
}
mod Free
mod Accounts
mod Examples
use llm_gateway_with_cost_co.Gateway.{
  ChatReply, ChatRequest, Gateway, chat_on_miss, completed, http_error, unhandled,
}
use llm_gateway_with_cost_co.Gateway.Answers.{Completion, cached_answer, deliver}
use llm_gateway_with_cost_co.Adapter.{Encoder, Message, Response}
use llm_gateway_with_cost_co.Cache.{Fingerprint, Kwargs, PromptCache, get}
use llm_gateway_with_cost_co.Guardrails.{GuardrailsPipeline}
use llm_gateway_with_cost_co.Ledger.{Clock, Error}
use llm_gateway_with_cost_co.Ledger.Requests.{Spend, record_request}
use llm_gateway_with_cost_co.Normalize.{UnicodeForms}
use llm_gateway_with_cost_co.Pii.{CharTables}
use llm_gateway_with_cost_co.Pii.Vault.{mask_messages}
use llm_gateway_with_cost_co.Router.{RouterConfig}
use llm_gateway_with_cost_co.Router.Execute.{Backends}
use llm_gateway_with_cost_co.Screening.{refuses_messages}
use llm_gateway_with_cost_co.Text.{Text, is_empty}

pub record Service : Type 0 where
  pub gateway : Gateway
  pub prompt_cache : PromptCache Completion

pub data Served : Type 0 where
  answered : Completion → Served
  turned_away : ℕ → Served
  failed : Error → Served

-- The record of a hit: its id is the id of the cached answer.
unfoldable pub hit_spend : String → Completion → Spend
hit_spend api_key stored = record {
  api_key = api_key;
  req_id = stored.id;
  backend = "cache";
  model = stored.model;
  prompt_tokens = stored.prompt_tokens;
  comp_tokens = stored.completion_tokens;
  cost = pos 0;
  latency = 0;
  reserved_cost = pos 0;
}

unfoldable pub served : ℕ ⊎ Completion → Served
served (inl status) = turned_away status
served (inr reply) = answered reply

module _ (digest : String → String) (tables : CharTables) where
  unfoldable pub serve_hit : String → List (Text × Text) → Completion → Service → Served × Service
  serve_hit api_key mapping stored s = (
    answered (cached_answer tables mapping stored),
    record s {
      gateway = record s.gateway {
        store = (record_request digest (hit_spend api_key stored) s.gateway.store).1;
      };
    },
  )

-- `forms` and `wide` are what the guardrails read of Unicode, `loads` is `json.loads`. The cache is
-- read at `now` and written at `done`.
module _ (digest : String → String) (encode : Encoder) (is_complex : List Message → Bool)
    (inadequate : List Message → Response → Bool) (c : RouterConfig) (backends : Backends)
    (clock : Clock) (forms : UnicodeForms) (wide : ℕ → Bool) (p : GuardrailsPipeline)
    (tables : CharTables) (loads : Text → Bool) (fingerprint : Fingerprint) (now done : ℕ) where
  unfoldable pub serve_reply :
      ChatRequest
      → Kwargs
      → List (Text × Text)
      → ChatReply × Gateway
      → PromptCache Completion
      → Served × Service
  serve_reply req kwargs mapping (completed r, g) cache =
      let (reply, cache') =
        deliver p tables loads fingerprint done req.messages kwargs req.options mapping r cache in
      (served reply, record { gateway = g; prompt_cache = cache' })
  serve_reply req kwargs mapping (http_error status, g) cache =
      (turned_away status, record { gateway = g; prompt_cache = cache })
  serve_reply req kwargs mapping (unhandled e, g) cache =
      (failed e, record { gateway = g; prompt_cache = cache })

  -- From the masked messages on
  unfoldable pub serve_masked :
      ChatRequest → Kwargs → List (Text × Text) → Service → Served × Service
  serve_masked req kwargs mapping s =
      let (hit, cache') = get fingerprint now req.messages kwargs s.prompt_cache in
      elim hit [
        | some stored ↦
            serve_hit digest tables req.api_key mapping stored (record s { prompt_cache = cache' })
        | none ↦
            serve_reply req kwargs mapping
              (chat_on_miss digest encode is_complex inadequate c backends clock req s.gateway)
              cache'
      ]

  unfoldable pub chat_completions : ChatRequest → Kwargs → Service → Served × Service
  chat_completions req kwargs s =
      if is_empty req.messages || refuses_messages forms wide req.messages
      then (turned_away 400, s)
      else (let (masked, mapping) = mask_messages tables req.messages in
          serve_masked (record req { messages = masked }) kwargs mapping s)
