-- ===== src/Gateway/Streaming/Accounts.antt =====
-- What a streamed request leaves in the ledger, however the stream ends.
use llm_gateway_with_cost_co.Prelude.{
  List, String, if◌then◌else◌, inl, inr, none, pos, refl, some, sym, ℕ, ◌≡◌, ◌≢◌, ◌⊎◌,
}
use llm_gateway_with_cost_co.Ledger.{Clock, Budget, Store}
use llm_gateway_with_cost_co.Guardrails.{GuardrailsPipeline}
use llm_gateway_with_cost_co.Gateway.{ChatRequest, ledger_reply, http_error}
use llm_gateway_with_cost_co.Pii.{CharTables}
use llm_gateway_with_cost_co.Ledger.Requests.{Spend, row_of, record_request}
use llm_gateway_with_cost_co.Adapter.{Encoder, Adapter}
use llm_gateway_with_cost_co.Text.{Text}
use llm_gateway_with_cost_co.Gateway.Settlement.{IsHeld, IsCharged, spend_charges}
use llm_gateway_with_cost_co.Gateway.Streaming.{
  settle_stream, stream_spend, Chunk, Ending, StreamEvent, stream_generator, reserve_and_stream,
  StreamState, ran_out, hit_timeout, streamed, not_streamed, send_chunks, new_stream, broke_off,
  abandoned,
}
use llm_gateway_with_cost_co.Table.{lookup, lookup-insert_self}
use llm_gateway_with_cost_co.Ledger.Budgets.{reset_periods}
use llm_gateway_with_cost_co.Ledger.Budgets.Limits.{reserve_holds}

-- A record for the request, against its reservation
abbrev SettlesFor : ChatRequest → ℕ → Spend → Type 0
SettlesFor req estimated x =
    (x.api_key ≡ req.api_key) × (x.req_id ≡ req.request_id) × (x.reserved_cost ≡ pos estimated)

module _ (p : GuardrailsPipeline) (tables : CharTables) (encode : Encoder) (adapters : List Adapter)
    (req : ChatRequest) (estimated latency : ℕ) where
  settle_stream-SettlesFor :
      (end : Ending) (sent : List StreamEvent) (s : StreamState)
      → SettlesFor req estimated
          (settle_stream p tables encode adapters req estimated latency end sent s).1
  unfolding settle_stream stream_spend
  settle_stream-SettlesFor ran_out sent s = (refl, refl, refl)
  settle_stream-SettlesFor hit_timeout sent s = (refl, refl, refl)
  settle_stream-SettlesFor broke_off sent s = (refl, refl, refl)
  settle_stream-SettlesFor abandoned sent s = (refl, refl, refl)

charges_req :
    (digest : String → String) (clock : Clock) (req : ChatRequest) (estimated : ℕ) (x : Spend)
    (b : Budget) (s : Store)
    → SettlesFor req estimated x
    → IsHeld (digest req.api_key) req.request_id clock (pos estimated) b s
    → IsCharged
        (digest req.api_key)
        req.request_id
        x.cost
        b
        (row_of digest x)
        (record_request digest x s).1
charges_req digest clock req estimated x b s (key, id, amount) h =
    rw (sym key, sym id) (spend_charges digest clock x b s (rw (key, id, amount) h))

module _ (p : GuardrailsPipeline) (tables : CharTables) (encode : Encoder) (adapters : List Adapter)
    (digest : String → String) (clock : Clock) (req : ChatRequest) (estimated latency : ℕ)
    (vault_mapping : List (Text × Text)) (backend : String) (chunks : List Chunk) (end : Ending)
    (b : Budget) (s : Store) where
  -- From the reservation on: a streamed request of a client with a budget, under an id that is not
  -- empty and not yet recorded.
  -- Either it is turned away with status 429, and the client's row is as it was or reset; or it
  -- streams, and whatever the chunks are and however the stream ends, by running out, a leak, a
  -- timeout, an exception or a client that disconnects, the client's counters (reset for a new
  -- period) grow by exactly the cost on record, its hold is gone and its record stands.
  pub stream_accounts :
      lookup (digest req.api_key) s.budgets ≡ some b
      → lookup req.request_id s.requests ≡ none
      → req.request_id ≢ ""
      → let generated =
          stream_generator p tables encode adapters req estimated latency vault_mapping backend
            chunks end in
        let (reply, s') = reserve_and_stream digest clock req estimated generated s in
        ((reply ≡ streamed generated.0)
          × IsCharged
              (digest req.api_key)
              req.request_id
              (generated.1).cost
              (reset_periods clock b)
              (row_of digest generated.1)
              s')
        ⊎ ((reply ≡ not_streamed (http_error 429))
            × (lookup (digest req.api_key) s'.budgets ≡ some (reset_periods clock b)))
  unfolding stream_generator reserve_and_stream ledger_reply
  stream_accounts e new named =
      let looped = send_chunks p tables backend chunks (new_stream vault_mapping) in
      let generated =
        stream_generator p tables encode adapters req estimated latency vault_mapping backend chunks
          end in
      let settles =
        settle_stream-SettlesFor p tables encode adapters req estimated latency
          (if looped.1 then ran_out else end) looped.0 looped.2 in
      elim (reserve_holds digest clock req.api_key (pos estimated) req.request_id s b e named) [
        | inl (ok_now, row, hold, same, within) ↦
            rw (ok_now, reserve_and_stream)
              (inl (
                refl,
                charges_req digest clock req estimated generated.1 (reset_periods clock b) _ settles
                    (
                      row,
                      rw (hold) (lookup-insert_self req.request_id _ s.reservations),
                      rw (same) new,
                    ),
              ))
        | inr (inl daily, row, same_holds, same_rows, over) ↦
            rw (daily, reserve_and_stream) (inr (refl, row))
        | inr (inr monthly, row, same_holds, same_rows, over) ↦
            rw (monthly, reserve_and_stream) (inr (refl, row))
      ]
