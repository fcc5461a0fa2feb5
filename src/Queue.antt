-- ===== src/Queue.antt =====
-- `AsyncLedgerQueue` (gateway/ledger/async_queue.py): requests recorded by a background worker. The
-- store behind it is an interface, which the ledger fills. A round of the worker, a submission and
-- a stop are each one step; an item that the worker took is written before anything else happens.
pub mod Delivery
mod Examples
use llm_gateway_with_cost_co.Prelude.{
  ℕ, Bool, List, String, false, if◌then◌else◌, leb, length, not, true, ◌&&◌, ◌++◌, ◌==◌, ◌∷◌, [],
}
use llm_gateway_with_cost_co.Ledger.Requests.{Spend, record_request}
use llm_gateway_with_cost_co.Ledger.{Store, Result, ok}

-- `BaseLedgerStore.record_request`: its result, an exception as an error, and the store after it.
pub record Writer (S : Type 0) : Type 0 where
  pub write : Spend → S → Result (Unit {0}) × S

abbrev pub ledger_writer : (String → String) → Writer Store
ledger_writer digest = record { write = record_request digest }

pub record AsyncLedgerQueue (S : Type 0) : Type 0 where
  pub store : S
  pub maxsize : ℕ
  pub queue : List Spend
  pub running : Bool
  pub has_worker : Bool

module _ {S : Type 0} (w : Writer S) where
  pub start : AsyncLedgerQueue S → AsyncLedgerQueue S
  start q = if q.running then q else record q { running = true; has_worker = true }

  -- `asyncio.Queue.full`; a size of 0 is no bound.
  abbrev pub is_full : AsyncLedgerQueue S → Bool
  is_full q = not (q.maxsize == 0) && leb q.maxsize (length q.queue)

  -- `put_nowait`, and the direct write when the queue is full, whose error reaches the caller.
  pub submit : Spend → AsyncLedgerQueue S → Result (Unit {0}) × AsyncLedgerQueue S
  submit x q =
      if is_full q
      then (let (r, s) = w.write x q.store in (r, record q { store = s }))
      else (ok tt, record q { queue = q.queue ++ x ∷ [] })

  -- A round of the worker: an empty queue is a timeout, and an error of the store is only logged.
  pub work : AsyncLedgerQueue S → AsyncLedgerQueue S
  work q =
      if q.has_worker
      then elim q.queue [ [] ↦ q | x ∷ xs ↦ record q { store = (w.write x q.store).1; queue = xs } ]
      else q

  -- The rounds that `queue.join()` waits for.
  pub write_all : List Spend → S → S
  write_all [] s = s
  write_all (x ∷ xs) s = write_all xs (w.write x s).1

  pub stop : AsyncLedgerQueue S → AsyncLedgerQueue S
  unfolding write_all
  stop q =
      if q.has_worker
      then record q {
        running = false;
        has_worker = false;
        queue = [];
        store = write_all q.queue q.store;
      }
      else record q { running = false }
