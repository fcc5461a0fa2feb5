-- ===== src/Router/Execute/Bounds.antt =====
-- How long `execute` (gateway/policy/router.py) may take, and how often it calls.
use llm_gateway_with_cost_co.Prelude.{
  Bool, arith, refl, ℕ, ◌+◌, ◌≡◌, ◌≤◌, false, List, length, ◌*◌, ◌∷◌, [], inl, inr,
}
use llm_gateway_with_cost_co.Router.Execute.{
  sleep, on_reply, call, Run, Backends, on_last_failure, count_throttled, attempts, failed_for_good,
  max_retries, Attempted, is_cascade, move_on, failover, execute, begin_run,
}
use llm_gateway_with_cost_co.Router.{
  RouterConfig, Routed, raised, no_available_backend, Options, RouterState, routed,
}
use llm_gateway_with_cost_co.Adapter.{Response, Adapter, Encoder, Message}
use llm_gateway_with_cost_co.Router.Execute.Rule.{attempts_rule, Attempted-cases}
use llm_gateway_with_cost_co.Router.Failure.{is_rate_limit_error}
use llm_gateway_with_cost_co.Text.{is_empty}
use llm_gateway_with_cost_co.Router.Ranking.{get_ranked_adapters}
use llm_gateway_with_cost_co.Router.Ranking.Failing.{Routed-cases}

call-clock :
    (c : RouterConfig) (backends : Backends) (deadline : ℕ) (a : Adapter) (run : Run)
    → run.clock ≤ deadline
    → (call c backends deadline a run).1.clock ≤ deadline
unfolding call
call-clock c backends deadline a run h = ground arith

call-calls :
    (c : RouterConfig) (backends : Backends) (deadline : ℕ) (a : Adapter) (run : Run)
    → (call c backends deadline a run).1.calls ≡ run.calls + 1
unfolding call
call-calls c backends deadline a run = refl

sleep-clock :
    (deadline backoff : ℕ) (run : Run)
    → run.clock ≤ deadline
    → (sleep deadline backoff run).clock ≤ deadline
unfolding sleep
sleep-clock deadline backoff run h = omega arith

sleep-calls : (deadline backoff : ℕ) (run : Run) → (sleep deadline backoff run).calls ≡ run.calls
unfolding sleep
sleep-calls deadline backoff run = refl

-- What none of the endings of an attempt touches.
reply_keeps :
    (c : RouterConfig) (inadequate : Response → Bool) (a : Adapter) (rank_idx : ℕ) (is_last : Bool)
    (r : Response) (run : Run)
    → ((on_reply c inadequate a rank_idx is_last r run).1.clock ≡ run.clock)
      × ((on_reply c inadequate a rank_idx is_last r run).1.calls ≡ run.calls)
unfolding on_reply
reply_keeps c inadequate a rank_idx is_last r run = ground arith

failure_keeps :
    (c : RouterConfig) (a : Adapter) (throttled : Bool) (run : Run)
    → ((on_last_failure c a throttled (count_throttled throttled run)).clock ≡ run.clock)
      × ((on_last_failure c a throttled (count_throttled throttled run)).calls ≡ run.calls)
unfolding on_last_failure count_throttled
failure_keeps c a throttled run = ground arith

-- Outside cascade a reply always ends the request.
reply_answers :
    (c : RouterConfig) (inadequate : Response → Bool) (a : Adapter) (rank_idx : ℕ) (is_last : Bool)
    (r : Response) (run : Run)
    → is_cascade c.strategy ≡ false
    → ¬ ((on_reply c inadequate a rank_idx is_last r run).0 ≡ move_on)
unfolding on_reply
reply_answers c inadequate a rank_idx is_last r run h = ground arith

-- What one adapter's attempts may do to the clock and the calls.
abbrev IsEnding : RouterConfig → ℕ → ℕ → Attempted → Run → Type 0
IsEnding c deadline start end run =
    (run.clock ≤ deadline)
    × (run.calls ≤ start + (max_retries + 1))
    × (is_cascade c.strategy ≡ false → end ≡ move_on → run.calls ≡ start + (max_retries + 1))

module _ (c : RouterConfig) (backends : Backends) (inadequate : Response → Bool)
    (deadline : ℕ) where
  attempts-IsEnding :
      (a : Adapter) (rank_idx : ℕ) (is_last : Bool) (run : Run)
      → run.clock ≤ deadline
      → IsEnding c deadline run.calls
          (attempts c backends inadequate deadline a rank_idx is_last (max_retries + 1) 0 run).0
          (attempts c backends inadequate deadline a rank_idx is_last (max_retries + 1) 0 run).1
  unfolding count_throttled failed_for_good
  attempts-IsEnding a rank_idx is_last run h =
      attempts_rule c backends inadequate deadline a rank_idx is_last
        {Before = λ left attempt s.
          (s.clock ≤ deadline)
          × (s.calls + left ≡ run.calls + (max_retries + 1))
          × (attempt + left ≡ max_retries + 1)}
        {After = IsEnding c deadline run.calls}
        record {
          none_left = λ _ s b. ground arith;
          too_late = λ _ _ s b. ground arith;
          replied = λ _ _ s r b _ _. ground (
            arith,
            reply_keeps c inadequate a rank_idx is_last r (call c backends deadline a s).1,
            reply_answers c inadequate a rank_idx is_last r (call c backends deadline a s).1,
            call-clock c backends deadline a s,
            call-calls c backends deadline a s,
          );
          retried = λ _ _ w s b _ _. ground (
            arith,
            sleep-clock deadline w (call c backends deadline a s).1,
            call-clock c backends deadline a s,
            sleep-calls deadline w (call c backends deadline a s).1,
            call-calls c backends deadline a s,
          );
          retried_failure = λ _ _ w s e b _ _. ground (
            arith,
            sleep-clock deadline w
                (count_throttled (is_rate_limit_error e) (call c backends deadline a s).1),
            call-clock c backends deadline a s,
            sleep-calls deadline w
                (count_throttled (is_rate_limit_error e) (call c backends deadline a s).1),
            call-calls c backends deadline a s,
          );
          given_up = λ left attempt s b _ _ late.
              ground
                (arith, call-clock c backends deadline a s, call-calls c backends deadline a s);
          given_up_failure = λ left attempt s e b _ _ late. ground (
            arith,
            failure_keeps c a (is_rate_limit_error e) (call c backends deadline a s).1,
            call-clock c backends deadline a s,
            call-calls c backends deadline a s,
          );
        }
        (max_retries + 1) 0 run (h, refl, refl)

  -- What the loop over the ranked adapters may do to them.
  abbrev IsDone : List Adapter → ℕ → Routed Response → Run → Type 0
  IsDone ranked start end run =
      (run.clock ≤ deadline)
      × (run.calls ≤ start + (max_retries + 1) * length ranked)
      × (is_cascade c.strategy ≡ false
          → end ≡ raised no_available_backend
          → run.calls ≡ start + (max_retries + 1) * length ranked)

  failover-IsDone :
      (rank_idx : ℕ) (ranked : List Adapter) (run : Run)
      → run.clock ≤ deadline
      → IsDone ranked run.calls
          (failover c backends inadequate deadline rank_idx ranked run).0
          (failover c backends inadequate deadline rank_idx ranked run).1
  unfolding failover
  failover-IsDone rank_idx [] run h = ground arith
  failover-IsDone rank_idx (a ∷ ranked) run h =
      let one =
        attempts c backends inadequate deadline a rank_idx (is_empty ranked) (max_retries + 1) 0
          run in
      let ended = attempts-IsEnding a rank_idx (is_empty ranked) run h in
      Attempted-cases one.0 (λ r q. rw (q, failover) (ground (arith, ended)))
        (λ q.
          rw (q, failover)
            (ground (arith, ended, failover-IsDone (rank_idx + 1) ranked one.1 ended.0)))
        (λ q. rw (q, failover) (ground (arith, ended)))

-- `execute` ends by the request's deadline, whatever the backends do, with an answer or an error:
-- its clock is at most `total_deadline_sec` past the start.
pub execute_by_deadline :
    (encode : Encoder) (is_complex : List Message → Bool)
    (inadequate : List Message → Response → Bool) (c : RouterConfig) (backends : Backends) (now : ℕ)
    (messages : List Message) (o : Options) (s : RouterState)
    → (execute encode is_complex inadequate c backends now messages o s).1.clock
      ≤ now + c.total_deadline_sec
unfolding execute
execute_by_deadline encode is_complex inadequate c backends now messages o s =
    elim (Routed-cases (get_ranked_adapters encode is_complex c now messages o s).0) [
      | inl (e, q) ↦ rw (q, execute) (omega arith)
      | inr (ranked, q) ↦
          rw (q, execute)
            ((failover-IsDone c backends (inadequate messages) (now + c.total_deadline_sec) 0 ranked
              (begin_run now (get_ranked_adapters encode is_complex c now messages o s).1)
              (omega arith)).0)
    ]

-- When the ranking gives a list of backends, `execute` makes at most three calls for each of them,
-- and outside cascade it gives up with no available backend only after exactly three calls for each.
pub execute_calls :
    (encode : Encoder) (is_complex : List Message → Bool)
    (inadequate : List Message → Response → Bool) (c : RouterConfig) (backends : Backends) (now : ℕ)
    (messages : List Message) (o : Options) (s : RouterState) (ranked : List Adapter)
    → (get_ranked_adapters encode is_complex c now messages o s).0 ≡ routed ranked
    → ((execute encode is_complex inadequate c backends now messages o s).1.calls
        ≤ 3 * length ranked)
      × (is_cascade c.strategy ≡ false
          → (execute encode is_complex inadequate c backends now messages o s).0
            ≡ raised no_available_backend
          → (execute encode is_complex inadequate c backends now messages o s).1.calls
            ≡ 3 * length ranked)
unfolding execute
execute_calls encode is_complex inadequate c backends now messages o s ranked q =
    rw (q, execute)
      (ground (
        arith,
        failover-IsDone c backends (inadequate messages) (now + c.total_deadline_sec) 0 ranked
            (begin_run now (get_ranked_adapters encode is_complex c now messages o s).1)
            (omega arith),
      ))
