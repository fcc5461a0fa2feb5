-- ===== src/Queue/Examples.antt =====
-- The queue's theorem (gateway/ledger/async_queue.py) over the ledger, at a queue for one item.
use mathlib.Core.List.{Perm}
use llm_gateway_with_cost_co.Prelude.{List, String, pos, refl, true, ◌++◌, ◌∷◌, ◌≡◌, []}
use llm_gateway_with_cost_co.Ledger.Requests.{Spend}
use llm_gateway_with_cost_co.Queue.{stop, AsyncLedgerQueue, ledger_writer, write_all}
use llm_gateway_with_cost_co.Queue.Delivery.{
  Event, submits, run_events, works, submitted, queue_delivers,
}
use llm_gateway_with_cost_co.Ledger.{Store, empty}

abbrev digest : String → String
digest k = k

abbrev item : String → Spend
item id = record {
  api_key = "alice";
  req_id = id;
  backend = "groq";
  model = "m";
  prompt_tokens = 1;
  comp_tokens = 1;
  cost = pos 2;
  latency = 3;
  reserved_cost = pos 0;
}

abbrev idle : AsyncLedgerQueue Store
idle = record { store = empty; maxsize = 1; queue = []; running = true; has_worker = true }

-- The second submission finds the queue full.
abbrev busy_hour : List Event
busy_hour = submits (item "r1") ∷ submits (item "r2") ∷ works ∷ submits (item "r3") ∷ []

queue_delivers_example :
    ((stop (ledger_writer digest) (run_events (ledger_writer digest) busy_hour idle)).queue ≡ [])
    × (done : List Spend) × ((stop
          (ledger_writer digest)
          (run_events (ledger_writer digest) busy_hour idle)).store
        ≡ write_all (ledger_writer digest) done empty)
    × Perm done ([] ++ submitted busy_hour)
queue_delivers_example = queue_delivers (ledger_writer digest) busy_hour idle refl
