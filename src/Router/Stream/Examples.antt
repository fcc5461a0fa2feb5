-- ===== src/Router/Stream/Examples.antt =====
-- The theorems on streams (gateway/policy/router.py) at two backends, the first of which is down.
use llm_gateway_with_cost_co.Prelude.{
  arith, All, List, if◌then◌else◌, refl, some, str_eq, ℕ, ◌++◌, ◌+◌, ◌∷◌, ◌≡◌, ◌≤◌, [],
}
use llm_gateway_with_cost_co.Adapter.{Adapter}
use llm_gateway_with_cost_co.Router.Stream.{
  StreamRun, Streams, open_stream, Opened, read_chunks, refuses, opens, exhausted, finished,
}
use llm_gateway_with_cost_co.Text.{Text}
use llm_gateway_with_cost_co.Router.Stream.Outcomes.{
  IsReported, IsOpening, read_chunks_complete, open_stream_first, read_chunks_reports,
}
use llm_gateway_with_cost_co.Router.Examples.{config, local_model, hosted, fresh_state}

abbrev streams : Streams
streams a =
    if str_eq a.id "ollama" then refuses 50 else opens (72 ∷ []) 100 ((105 ∷ [], 20) ∷ []) exhausted

abbrev begin : StreamRun
begin = record { clock = 40000; router = fresh_state; sent = [] }

abbrev rest : List (Text × ℕ)
rest = (105 ∷ [], 20) ∷ []

abbrev opened : Opened
opened = record { target = hosted; chunks = rest; end = exhausted }

read_chunks_reports_example :
    IsReported config hosted
      (read_chunks config hosted 40000 exhausted rest begin).0
      fresh_state.breakers
      (read_chunks config hosted 40000 exhausted rest begin).1.router.breakers
read_chunks_reports_example = read_chunks_reports config hosted 40000 exhausted rest begin

reads_all : (read_chunks config hosted 40000 exhausted rest begin).0 ≡ finished
unfolding read_chunks
reads_all = refl

read_chunks_complete_example :
    ((read_chunks config hosted 40000 exhausted rest begin).1.sent ≡ (105 ∷ []) ∷ [])
    × ((read_chunks config hosted 40000 exhausted rest begin).1.clock ≤ 40000 + 30000)
read_chunks_complete_example =
    read_chunks_complete config hosted 40000 exhausted rest begin (omega arith) reads_all

opens_second : (open_stream config streams (local_model ∷ hosted ∷ []) begin).0 ≡ some opened
unfolding open_stream
opens_second = refl

open_stream_first_example :
    (before : List Adapter) × (after : List Adapter) × (local_model ∷ hosted ∷ []
      ≡ before ++ hosted ∷ after)
    × (100 ≤ 30000)
    × All (λ a. ¬ (IsOpening config (streams a))) before
open_stream_first_example =
    open_stream_first config streams (local_model ∷ hosted ∷ []) begin opened opens_second
