-- ===== src/Queue/Delivery.antt =====
-- What reaches the store through gateway/ledger/async_queue.py, and in which order.
use mathlib.Core.List.Perm
use mathlib.Core.List.{Perm, append_assoc}
use llm_gateway_with_cost_co.Prelude.{
  arith, Bool-cases, List, inl, inr, refl, true, ◌++◌, ◌∷◌, ◌≡◌, [], List-cases, sym, ◌∙◌, false,
}
use llm_gateway_with_cost_co.Queue.{
  Writer, stop, AsyncLedgerQueue, write_all, submit, work, is_full,
}
use llm_gateway_with_cost_co.Ledger.Requests.{Spend}

-- What may happen while the queue runs.
pub data Event : Type 0 where
  submits : Spend → Event
  works : Event

pub submitted : List Event → List Spend
submitted [] = []
submitted (submits x ∷ es) = x ∷ submitted es
submitted (works ∷ es) = submitted es

Perm-middle : (x : Spend) (xs ys : List Spend) → Perm (x ∷ (xs ++ ys)) (xs ++ x ∷ ys)
Perm-middle x [] ys = Perm.refl (x ∷ ys)
Perm-middle x (z ∷ xs) ys =
    Perm.trans (Perm.swap z x (xs ++ ys)) (Perm.cons z (Perm-middle x xs ys))

append-[] : (xs : List Spend) → xs ++ [] ≡ xs
append-[] [] = refl
append-[] (x ∷ xs) = rw (append-[] xs) refl

module _ {S : Type 0} (w : Writer S) where
  pub run_events : List Event → AsyncLedgerQueue S → AsyncLedgerQueue S
  unfolding submit work
  run_events [] q = q
  run_events (submits x ∷ es) q = run_events es (submit w x q).1
  run_events (works ∷ es) q = run_events es (work w q)

  write_all-append :
      (xs ys : List Spend) (s : S) → write_all w (xs ++ ys) s ≡ write_all w ys (write_all w xs s)
  unfolding write_all
  write_all-append [] ys s = refl
  write_all-append (x ∷ xs) ys s = write_all-append xs ys (w.write x s).1

  -- What was written so far, and what waits, against what was asked for.
  abbrev IsDelivering : List Spend → AsyncLedgerQueue S → AsyncLedgerQueue S → Type 0
  IsDelivering asked q q' =
      (done : List Spend) × (q'.store ≡ write_all w done q.store)
      × Perm (done ++ q'.queue) asked
      × (q'.has_worker ≡ q.has_worker)

  submit_full :
      (x : Spend) (q : AsyncLedgerQueue S)
      → is_full w q ≡ true
      → (submit w x q).1 ≡ record q { store = (w.write x q.store).1 }
  unfolding submit
  submit_full x q e = rw (e, submit) refl

  submit_roomy :
      (x : Spend) (q : AsyncLedgerQueue S)
      → is_full w q ≡ false
      → (submit w x q).1 ≡ record q { queue = q.queue ++ x ∷ [] }
  unfolding submit
  submit_roomy x q e = rw (e, submit) refl

  work_idle : (q : AsyncLedgerQueue S) → q.queue ≡ [] → work w q ≡ q
  unfolding work
  work_idle q e = ground (arith, e)

  work_next :
      (y : Spend) (ys : List Spend) (q : AsyncLedgerQueue S)
      → q.has_worker ≡ true
      → q.queue ≡ y ∷ ys
      → work w q ≡ record q { store = (w.write y q.store).1; queue = ys }
  unfolding work
  work_next y ys q h e = ground (arith, e, h)

  run-IsDelivering :
      (es : List Event) (q : AsyncLedgerQueue S)
      → q.has_worker ≡ true
      → IsDelivering (q.queue ++ submitted es) q (run_events es q)
  unfolding run_events submitted write_all
  run-IsDelivering [] q h = ([], refl, rw (append-[] q.queue) (Perm.refl q.queue), refl)
  run-IsDelivering (submits x ∷ es) q h = elim (Bool-cases (is_full w q)) [
    | inl full ↦
        let (done, e, p, k) = run-IsDelivering es (record q { store = (w.write x q.store).1 }) h in
        rw (submit_full x q full, run_events)
          (x ∷ done, e, Perm.trans (Perm.cons x p) (Perm-middle x q.queue (submitted es)), k)
    | inr roomy ↦
        let (done, e, p, k) = run-IsDelivering es (record q { queue = q.queue ++ x ∷ [] }) h in
        rw (submit_roomy x q roomy, run_events)
          (done, e, rw (append_assoc q.queue (x ∷ []) (submitted es)) at p, k)
  ]
  run-IsDelivering (works ∷ es) q h = elim (List-cases q.queue) [
    | inl e ↦ rw (work_idle q e, run_events) (run-IsDelivering es q h)
    | inr (y, ys, e) ↦
        let (done, f, p, k) =
          run-IsDelivering es (record q { store = (w.write y q.store).1; queue = ys }) h in
        rw (work_next y ys q h e, run_events) (y ∷ done, f, rw (e) (Perm.cons y p), k)
  ]

-- From a queue whose worker runs, whatever submissions and rounds of the worker happen, and in
-- whatever order: after `stop` nothing waits, and the store has had every item that waited or was
-- submitted written to it exactly once, in some order.
pub queue_delivers :
    {S : Type 0} (w : Writer S) (es : List Event) (q : AsyncLedgerQueue S)
    → q.has_worker ≡ true
    → ((stop w (run_events w es q)).queue ≡ [])
      × (done : List Spend) × ((stop w (run_events w es q)).store ≡ write_all w done q.store)
      × Perm done (q.queue ++ submitted es)
unfolding stop
queue_delivers w es q h =
    let (done, e, p, k) = run-IsDelivering w es q h in
    let q' = run_events w es q in
    let kept : q'.has_worker ≡ true = k ∙ h in
    (
      rw (kept, stop) refl,
      done ++ q'.queue,
      rw (kept, stop) (rw (e) (sym (write_all-append w done q'.queue q.store))),
      p,
    )
