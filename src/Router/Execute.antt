-- ===== src/Router/Execute.antt =====
-- `execute` (gateway/policy/router.py): failover over the ranked adapters, with retries, one
-- deadline for the whole request, and cascade escalation. Only a call and a sleep take time.
pub mod Rule
pub mod Bounds
pub mod Billing
pub mod Throttled
pub mod Stuck
use llm_gateway_with_cost_co.Prelude.{
  Bool, false, get_or, if◌then◌else◌, leb, ltb, min, not, true, ℕ, ◌&&◌, ◌*◌, ◌+◌, ◌-◌, ◌/◌, ◌||◌,
  List, suc, zero, ◌^◌, ◌∷◌, [],
}
use llm_gateway_with_cost_co.Adapter.{Adapter, Response, Encoder, Message}
use llm_gateway_with_cost_co.Router.{
  RouterConfig, RouterState, Strategy, cascade, Routed, raised, Options, no_available_backend,
  routed, deadline_exceeded,
}
use llm_gateway_with_cost_co.Ledger.{second}
use llm_gateway_with_cost_co.Breaker.{record_failure, record_success}
use llm_gateway_with_cost_co.Router.Failure.{Failure, is_rate_limit_error, retry_after_seconds}
use llm_gateway_with_cost_co.Table.{lookup, insert}
use llm_gateway_with_cost_co.Text.{is_empty}
use llm_gateway_with_cost_co.Router.Ranking.{get_ranked_adapters}

-- What a backend does with a call: a reply or a failure, after some time.
pub data CallOutcome : Type 0 where
  replies : Response → ℕ → CallOutcome
  fails : Failure → ℕ → CallOutcome

-- The backends: the outcome of the n-th call of the request, which goes to the given adapter.
abbrev pub Backends : Type 0
Backends = ℕ → Adapter → CallOutcome

-- The variables of `execute`, with the three counters of gateway/telemetry/metrics.py that it
-- moves. `calls` numbers the calls; `received` is the cost of all replies so far, for the proofs.
pub record Run : Type 0 where
  pub clock : ℕ
  pub router : RouterState
  pub cascade_discarded_cost : ℕ
  pub fallback_total : ℕ
  pub throttled_total : ℕ
  pub deadline_exceeded_total : ℕ
  pub calls : ℕ
  pub received : ℕ

abbrev pub min_attempt_sec : ℕ
min_attempt_sec = second

abbrev pub max_retries : ℕ
max_retries = 2

-- `wait_for(..., timeout)`
pub data Awaited : Type 0 where
  reply : Response → Awaited
  timed_out : Awaited
  failure : Failure → Awaited

pub await_call : CallOutcome → ℕ → Awaited × ℕ
await_call (replies r d) timeout = if leb d timeout then (reply r, d) else (timed_out, timeout)
await_call (fails e d) timeout = if leb d timeout then (failure e, d) else (timed_out, timeout)

-- 0.2 of the new latency and 0.8 of the old average, rounded down
pub observe_latency : Adapter → ℕ → ℕ → RouterState → RouterState
observe_latency a latency now s =
    let current = get_or (lookup a.id s.latency_ema) latency in
    record s {
      latency_ema = insert a.id ((latency + 4 * current) / 5) s.latency_ema;
      latency_measured_at = insert a.id now s.latency_measured_at;
    }

abbrev pub is_cascade : Strategy → Bool
is_cascade cascade = true
is_cascade _ = false

-- `2**attempt` seconds
pub backoff_guess : ℕ → ℕ
backoff_guess attempt = 2 ^ attempt * second

-- `time.sleep(min(backoff, max(0, deadline - now)))`
pub sleep : ℕ → ℕ → Run → Run
sleep deadline backoff run = record run { clock = run.clock + min backoff (deadline - run.clock) }

pub failed_for_good : RouterConfig → Adapter → Run → Run
failed_for_good c a run = record run {
  router = record run.router {
    breakers = record_failure c.breaker run.clock a.id run.router.breakers;
  };
}

-- How the attempts on one adapter end.
pub data Attempted : Type 0 where
  answered : Response → Attempted
  move_on : Attempted
  out_of_time : Attempted

-- A reply: the latency average, the breaker, and then cascade's judgement or the answer.
-- `rank_idx` counts from 0, and `is_last` is its test against the end of the list.
unfoldable pub on_reply :
    RouterConfig → (Response → Bool) → Adapter → ℕ → Bool → Response → Run → Attempted × Run
unfolding observe_latency
on_reply c inadequate a rank_idx is_last r run =
    let measured = observe_latency a r.latency_ms run.clock run.router in
    let run' = record run {
      router = record measured { breakers = record_success a.id measured.breakers };
      received = run.received + r.cost_usd;
    } in
    if is_cascade c.strategy && not is_last && inadequate r
    then (move_on, record run' { cascade_discarded_cost = run.cascade_discarded_cost + r.cost_usd })
    else (
      answered (record r {
        cost_usd = r.cost_usd + run.cascade_discarded_cost;
        is_fallback = r.is_fallback || ltb 0 rank_idx;
      }),
      record run' { fallback_total = run.fallback_total + (if ltb 0 rank_idx then 1 else 0) },
    )

-- A failure on the last attempt counts against the breaker, unless it is throttling.
pub on_last_failure : RouterConfig → Adapter → Bool → Run → Run
unfolding failed_for_good
on_last_failure c a throttled run = if throttled then run else failed_for_good c a run

-- One attempt's call, with what it takes off the clock.
pub call : RouterConfig → Backends → ℕ → Adapter → Run → Awaited × Run
unfolding await_call
call c backends deadline a run =
    let (outcome, taken) =
      await_call (backends run.calls a) (min c.timeout_sec (deadline - run.clock)) in
    (outcome, record run { clock = run.clock + taken; calls = run.calls + 1 })

pub count_throttled : Bool → Run → Run
count_throttled throttled run = record run {
  throttled_total = run.throttled_total + (if throttled then 1 else 0);
}

module _ (c : RouterConfig) (backends : Backends) (inadequate : Response → Bool)
    (deadline : ℕ) where
  -- The attempts on one adapter: `left` of them from the given one on.
  pub attempts : Adapter → ℕ → Bool → (left attempt : ℕ) → Run → Attempted × Run
  unfolding sleep backoff_guess on_reply on_last_failure call count_throttled
  attempts a rank_idx is_last zero attempt run = (move_on, run)
  attempts a rank_idx is_last (suc left) attempt run =
      elim (leb deadline (run.clock + min_attempt_sec)) [
        | true ↦
            (out_of_time, record run { deadline_exceeded_total = run.deadline_exceeded_total + 1 })
        | false ↦
            let (outcome, run') = call c backends deadline a run in
            elim outcome [
              | reply r ↦ on_reply c inadequate a rank_idx is_last r run'
              | timed_out ↦ elim (ltb attempt max_retries) [
                | true ↦
                    attempts a rank_idx is_last left (attempt + 1)
                      (sleep deadline (backoff_guess attempt) run')
                | false ↦ (move_on, failed_for_good c a run')
              ]
              | failure e ↦
                  let throttled = is_rate_limit_error e in
                  let run'' = count_throttled throttled run' in
                  elim (ltb attempt max_retries) [
                    | true ↦ attempts a rank_idx is_last left (attempt + 1) (
                        sleep deadline (get_or (retry_after_seconds e) (backoff_guess attempt))
                          run'')
                    | false ↦ (move_on, on_last_failure c a throttled run'')
                  ]
            ]
      ]

  -- The loop over the ranked adapters.
  pub failover : ℕ → List Adapter → Run → Routed Response × Run
  failover rank_idx [] run = (raised no_available_backend, run)
  failover rank_idx (a ∷ ranked) run =
      let (end, run') = attempts a rank_idx (is_empty ranked) (max_retries + 1) 0 run in
      elim end [
        | answered r ↦ (routed r, run')
        | move_on ↦ failover (rank_idx + 1) ranked run'
        | out_of_time ↦ (raised deadline_exceeded, run')
      ]

abbrev pub begin_run : ℕ → RouterState → Run
begin_run now s = record {
  clock = now;
  router = s;
  cascade_discarded_cost = 0;
  fallback_total = 0;
  throttled_total = 0;
  deadline_exceeded_total = 0;
  calls = 0;
  received = 0;
}

-- `inadequate` is `_is_response_inadequate`, which reads the prompt too.
pub execute :
    Encoder
    → (List Message → Bool)
    → (List Message → Response → Bool)
    → RouterConfig
    → Backends
    → ℕ
    → List Message
    → Options
    → RouterState
    → Routed Response × Run
execute encode is_complex inadequate c backends now messages o s =
    let (ranked, s') = get_ranked_adapters encode is_complex c now messages o s in
    elim ranked [
      | raised e ↦ (raised e, begin_run now s')
      | routed adapters ↦
          failover c backends (inadequate messages) (now + c.total_deadline_sec) 0 adapters
            (begin_run now s')
    ]
