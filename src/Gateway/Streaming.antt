-- ===== src/Gateway/Streaming.antt =====
-- `stream_generator` in `chat_completions` (gateway/main.py): the chunks that `execute_stream` yields
-- (gateway/policy/router.py), screened, restored and sent, and the settlement when the stream ends,
-- however it ends. The ledger's queue is taken as empty, so that a record is written at once.
use llm_gateway_with_cost_co.Prelude.{
  arith, Bool, List, Option, String, get_or, if◌then◌else◌, none, some, str_eq, ℕ, ◌++◌, ◌∷◌, [],
  false, length, max, pos, true, ◌+◌, ◌/◌,
}
mod Accounts
mod Steps
mod Texts
mod Reached
mod Examples
use llm_gateway_with_cost_co.Guardrails.{
  GuardrailsPipeline, OutputFilter, new_filter, flush, seen_text, feed,
}
use llm_gateway_with_cost_co.Text.{Text, is_empty}
use llm_gateway_with_cost_co.Pii.Restorer.{VaultRestorer, new_restorer, feed_text, flush_text}
use llm_gateway_with_cost_co.Pii.{CharTables}
use llm_gateway_with_cost_co.Adapter.{Encoder, Adapter, Message, count_tokens, calculate_cost}
use llm_gateway_with_cost_co.Gateway.{ChatRequest, ChatReply, ledger_reply}
use llm_gateway_with_cost_co.Ledger.Requests.{Spend, record_request}
use llm_gateway_with_cost_co.Ledger.{Clock, Store, err, ok}
use llm_gateway_with_cost_co.Ledger.Budgets.{check_and_reserve_budget}

-- One of the `choices`: the text of its delta, and whether it has a `finish_reason`
pub record Choice : Type 0 where
  pub content : Text
  pub finished : Bool

-- What the generator reads of a chunk: an empty model, usage or list of choices is an absent one.
-- `choice` is `choices[0]`, and `others` are `choices[1:]`.
pub record Chunk : Type 0 where
  pub model : Option String
  pub usage : Option (ℕ × ℕ)
  pub choice : Option Choice
  pub others : List Choice

-- How the stream of the router ends: the last is a client that disconnects, which `except Exception`
-- does not catch.
pub data Ending : Type 0 where
  ran_out hit_timeout broke_off abandoned : Ending

-- What is sent to the client: a chunk as it came, a chunk with another text for its first choice
-- and with the other choices as they came (`_stream_chunk_with`), an error, the end
pub data StreamEvent : Type 0 where
  passed_on : Chunk → StreamEvent
  with_text : Text → List Choice → StreamEvent
  guardrail_error timeout_error gateway_error done : StreamEvent

pub record StreamState : Type 0 where
  pub output_filter : OutputFilter
  pub vault_restorer : VaultRestorer
  pub backend_id : String
  pub model : String
  pub usage : Option (ℕ × ℕ)
  -- of the last chunk
  pub last_others : List Choice

abbrev pub new_stream : List (Text × Text) → StreamState
new_stream vault_mapping = record {
  output_filter = new_filter;
  vault_restorer = new_restorer vault_mapping;
  backend_id = "unknown";
  model = "unknown";
  usage = none;
  last_others = [];
}

abbrev pub either {ℓ} : {A : Type ℓ} → Option A → Option A → Option A
either none d = d
either (some a) d = some a

-- What is noted of every chunk; the router has named the backend by then.
unfoldable pub note_chunk : String → Chunk → StreamState → StreamState
note_chunk backend chunk s = record s {
  backend_id = backend;
  model = if str_eq s.model "unknown" then get_or chunk.model s.model else s.model;
  usage = either chunk.usage s.usage;
  last_others = chunk.others;
}

-- Text that is not empty is sent.
abbrev pub send_some : Text → List Choice → List StreamEvent
send_some [] others = []
send_some (c ∷ t) others = with_text (c ∷ t) others ∷ []

module _ (p : GuardrailsPipeline) (tables : CharTables) where
  unfoldable pub screen_text : Text → OutputFilter → Text × OutputFilter
  screen_text t f = if is_empty t then ([], f) else feed p t f

  -- Both held tails, when no more text can arrive
  unfoldable pub release_tails :
      Text → OutputFilter → VaultRestorer → Text × OutputFilter × VaultRestorer
  release_tails safe f r =
      let flushed = flush p f in
      let fed = feed_text tables (safe ++ flushed.0) r in
      let last = flush_text tables fed.1 in (fed.0 ++ last.0, flushed.1, last.1)

  -- The events, whether a leak ends the loop here, and the state
  unfoldable pub send_choice : Choice → StreamState → List StreamEvent × Bool × StreamState
  send_choice choice s =
      let screened = screen_text choice.content s.output_filter in
      let tails = release_tails screened.0 screened.1 s.vault_restorer in
      let fed = feed_text tables screened.0 s.vault_restorer in
      if (screened.1).leaked
      then (guardrail_error ∷ [], true, record s { output_filter = screened.1 })
      else if choice.finished
      then (
        with_text tails.0 s.last_others ∷ [],
        false,
        record s { output_filter = tails.1; vault_restorer = tails.2 },
      )
      else (
        send_some fed.0 s.last_others,
        false,
        record s { output_filter = screened.1; vault_restorer = fed.1 },
      )

  unfoldable pub send_chunk : String → Chunk → StreamState → List StreamEvent × Bool × StreamState
  send_chunk backend chunk s =
      let noted = note_chunk backend chunk s in
      elim chunk.choice [
        | none ↦ (passed_on chunk ∷ [], false, noted)
        | some choice ↦ send_choice choice noted
      ]

  unfoldable pub send_chunks :
      String → List Chunk → StreamState → List StreamEvent × Bool × StreamState
  send_chunks backend [] s = ([], false, s)
  send_chunks backend (chunk ∷ chunks) s =
      let sent = send_chunk backend chunk s in
      let rest = send_chunks backend chunks sent.2 in
      if sent.1 then sent else (sent.0 ++ rest.0, rest.1, rest.2)

  -- What follows the loop: a stream that ends without a `finish_reason` still has a tail held back.
  unfoldable pub send_tail : StreamState → List StreamEvent × StreamState
  send_tail s =
      let tails = release_tails [] s.output_filter s.vault_restorer in
      if s.output_filter.leaked then ([], s) else (
        send_some tails.0 s.last_others,
        record s { output_filter = tails.1; vault_restorer = tails.2 },
      )

-- `_find_adapter`
unfoldable pub find_adapter : String → List Adapter → Option Adapter
find_adapter backend_id [] = none
find_adapter backend_id (a ∷ adapters) =
    if str_eq a.id backend_id then some a else find_adapter backend_id adapters

abbrev pub characters : List Message → ℕ
characters [] = 0
characters (m ∷ ms) = length m.content + characters ms

-- `_count_tokens`: without an adapter, four characters count as a token.
unfoldable pub count_tokens_by : Encoder → Option Adapter → List Message → Text → ℕ × ℕ
count_tokens_by encode none messages text = (max 1 (characters messages / 4), length text / 4)
count_tokens_by encode (some a) messages text = count_tokens encode a messages text

-- `_adapter_cost`
unfoldable pub adapter_cost : Option Adapter → ℕ → ℕ → ℕ
adapter_cost none prompt_tokens completion_tokens = 0
adapter_cost (some a) prompt_tokens completion_tokens =
    calculate_cost a prompt_tokens completion_tokens

-- The tokens that are billed. `accumulated_text` is set only when the stream has run out: on the
-- other endings the text that was sent counts for nothing.
unfoldable pub billed_tokens :
    Encoder → Option Adapter → List Message → Ending → StreamState → ℕ × ℕ
billed_tokens encode a messages ran_out s =
    let counted = count_tokens_by encode a messages (seen_text s.output_filter) in
    let used = get_or s.usage counted in (used.0, max 1 used.1)
billed_tokens encode a messages hit_timeout s = count_tokens_by encode a messages []
billed_tokens encode a messages broke_off s = count_tokens_by encode a messages []
billed_tokens encode a messages abandoned s = count_tokens_by encode a messages []

-- The one record of a streamed request
unfoldable pub stream_spend :
    Encoder → List Adapter → ChatRequest → ℕ → ℕ → Ending → StreamState → Spend
stream_spend encode adapters req estimated latency end s =
    let a = find_adapter s.backend_id adapters in
    let tokens = billed_tokens encode a req.messages end s in
    record {
      api_key = req.api_key;
      req_id = req.request_id;
      backend = s.backend_id;
      model = s.model;
      prompt_tokens = tokens.0;
      comp_tokens = tokens.1;
      cost = pos (adapter_cost a tokens.0 tokens.1);
      latency = latency;
      reserved_cost = pos estimated;
    }

module _ (p : GuardrailsPipeline) (tables : CharTables) (encode : Encoder) (adapters : List Adapter)
    (req : ChatRequest) (estimated latency : ℕ) where
  -- From where the loop ended. The last event is sent after the settlement.
  unfoldable pub settle_stream : Ending → List StreamEvent → StreamState → List StreamEvent × Spend
  settle_stream ran_out sent s =
      let tail = send_tail p tables s in
      (
        sent ++ (tail.0 ++ (done ∷ [])),
        stream_spend encode adapters req estimated latency ran_out tail.1,
      )
  settle_stream hit_timeout sent s = (
    sent ++ (timeout_error ∷ done ∷ []),
    stream_spend encode adapters req estimated latency hit_timeout s,
  )
  settle_stream broke_off sent s = (
    sent ++ (gateway_error ∷ done ∷ []),
    stream_spend encode adapters req estimated latency broke_off s,
  )
  settle_stream abandoned sent s =
      (sent, stream_spend encode adapters req estimated latency abandoned s)

  -- What is sent and what is recorded. A leak leaves the loop as the last chunk does.
  unfoldable pub stream_generator :
      List (Text × Text) → String → List Chunk → Ending → List StreamEvent × Spend
  stream_generator vault_mapping backend chunks end =
      let looped = send_chunks p tables backend chunks (new_stream vault_mapping) in
      settle_stream (if looped.1 then ran_out else end) looped.0 looped.2

pub data StreamReply : Type 0 where
  streamed : List StreamEvent → StreamReply
  not_streamed : ChatReply → StreamReply

-- The reservation, and the stream if it is granted.
unfoldable pub reserve_and_stream :
    (String → String)
    → Clock
    → ChatRequest
    → ℕ
    → List StreamEvent × Spend
    → Store
    → StreamReply × Store
reserve_and_stream digest clock req estimated generated s =
    let (reserved, s') =
      check_and_reserve_budget digest clock req.api_key (pos estimated) (some req.request_id) s in
    elim reserved [
      | err e ↦ (not_streamed (ledger_reply e), s')
      | ok b ↦ (streamed generated.0, (record_request digest generated.1 s').1)
    ]
