-- ===== src/Router/Execute/Throttled.antt =====
-- What throttling does to the breakers in `execute` (gateway/policy/router.py).
use llm_gateway_with_cost_co.Prelude.{
  arith, Bool, false, leb, true, ℕ, ◌+◌, ◌≡◌, ◌≤◌, min, refl, ◌-◌, List, inl, inr, ◌∷◌, [],
}
use llm_gateway_with_cost_co.Router.{RouterConfig, RouterState, routed, Options}
use llm_gateway_with_cost_co.Router.Execute.{
  Backends, Run, min_attempt_sec, call, fails, await_call, failure, sleep, count_throttled,
  on_last_failure, attempts, max_retries, answered, reply, timed_out, execute, failover, begin_run,
}
use llm_gateway_with_cost_co.Adapter.{Response, Adapter, Encoder, Message}
use llm_gateway_with_cost_co.Router.Failure.{Failure, is_rate_limit_error}
use llm_gateway_with_cost_co.Router.Execute.Rule.{attempts_rule, Attempted-cases}
use llm_gateway_with_cost_co.Text.{is_empty}
use llm_gateway_with_cost_co.Router.Ranking.{get_ranked_adapters}
use llm_gateway_with_cost_co.Router.Ranking.Failing.{Routed-cases}

-- Every call fails with a rate limit, and within the second that an attempt is sure to have.
abbrev pub IsThrottling : Backends → Type 0
IsThrottling backends =
    (n : ℕ) (a : Adapter)
    → (e : Failure) × (d : ℕ) × (backends n a ≡ fails e d)
      × (is_rate_limit_error e ≡ true)
      × (d ≤ min_attempt_sec)

-- The breakers as they were, every call counted as throttled, and no answer.
abbrev pub IsUnharmed : RouterState → Run → Type 0
IsUnharmed s run = (run.router ≡ s) × (run.throttled_total ≡ run.calls)

module _ (c : RouterConfig) (backends : Backends) (inadequate : Response → Bool) (deadline : ℕ)
    (busy : IsThrottling backends) (patient : min_attempt_sec ≤ c.timeout_sec) where
  call_throttled :
      (a : Adapter) (run : Run)
      → leb deadline (run.clock + min_attempt_sec) ≡ false
      → (e : Failure) × (is_rate_limit_error e ≡ true)
        × ((call c backends deadline a run).0 ≡ failure e)
  unfolding call await_call
  call_throttled a run h =
      let (e, d, q, t, fast) = busy run.calls a in
      (e, t, rw (q, call) (rw (leb_in_time d run fast h) refl))
    where
      leb_in_time :
          (d : ℕ) (run : Run)
          → d ≤ min_attempt_sec
          → leb deadline (run.clock + min_attempt_sec) ≡ false
          → leb d (min c.timeout_sec (deadline - run.clock)) ≡ true
      leb_in_time d run fast h = ground (arith, patient)

  -- No call in time ends in any other way.
  call_otherwise :
      (a : Adapter) (run : Run)
      → leb deadline (run.clock + min_attempt_sec) ≡ false
      → ((r : Response) → ¬ ((call c backends deadline a run).0 ≡ reply r))
        × (¬ ((call c backends deadline a run).0 ≡ timed_out))
        × ((e : Failure)
            → (call c backends deadline a run).0 ≡ failure e
            → is_rate_limit_error e ≡ true)
  call_otherwise a run h =
      let (e, t, q) = call_throttled a run h in
      (λ r k. ground (arith, q, k), λ k. ground (arith, q, k), λ e' k. grind (arith, q, k, t))

  attempts-IsUnharmed :
      (s : RouterState) (a : Adapter) (rank_idx : ℕ) (is_last : Bool) (run : Run)
      → IsUnharmed s run
      → IsUnharmed s
          (attempts c backends inadequate deadline a rank_idx is_last (max_retries + 1) 0 run).1
        × ((r : Response)
            → ¬ (
                (attempts c backends inadequate deadline a rank_idx is_last
                  (max_retries + 1)
                  0
                  run).0
                ≡ answered r))
  unfolding call sleep count_throttled on_last_failure
  attempts-IsUnharmed s a rank_idx is_last run h =
      attempts_rule c backends inadequate deadline a rank_idx is_last
        {Before = λ _ _ run. IsUnharmed s run}
        {After = λ end run. IsUnharmed s run × ((r : Response) → ¬ (end ≡ answered r))}
        record {
          none_left = λ _ _ b. (b, λ r q. ground (arith, q));
          too_late = λ _ _ _ b. (b, λ r q. ground (arith, q));
          replied = λ _ _ run r b i q. absurd ((call_otherwise a run i).0 r q);
          retried = λ _ _ _ run b i q. absurd ((call_otherwise a run i).1 q);
          retried_failure =
              λ _ _ _ run e b i q. rw ((call_otherwise a run i).2 e q) (b.0, omega (arith, b.1));
          given_up = λ _ _ run b i q _. absurd ((call_otherwise a run i).1 q);
          given_up_failure = λ _ _ run e b i q _.
              rw ((call_otherwise a run i).2 e q)
                ((b.0, omega (arith, b.1)), λ r k. ground (arith, k));
        }
        (max_retries + 1) 0 run h

  failover-IsUnharmed :
      (s : RouterState) (rank_idx : ℕ) (ranked : List Adapter) (run : Run)
      → IsUnharmed s run
      → IsUnharmed s (failover c backends inadequate deadline rank_idx ranked run).1
        × ((r : Response)
            → ¬ ((failover c backends inadequate deadline rank_idx ranked run).0 ≡ routed r))
  unfolding failover
  failover-IsUnharmed s rank_idx [] run h = (h, λ r q. ground (arith, q))
  failover-IsUnharmed s rank_idx (a ∷ ranked) run h =
      let one =
        attempts c backends inadequate deadline a rank_idx (is_empty ranked) (max_retries + 1) 0
          run in
      let ended = attempts-IsUnharmed s a rank_idx (is_empty ranked) run h in
      Attempted-cases one.0 (λ r q. absurd (ended.1 r q))
        (λ q. rw (q, failover) (failover-IsUnharmed s (rank_idx + 1) ranked one.1 ended.0))
        (λ q. rw (q, failover) (ended.0, λ r k. ground (arith, k)))

-- When every call fails with a rate limit within a second, and `timeout_sec` is at least that,
-- `execute` counts each of its calls as throttled, gives no answer, and leaves breakers and latency
-- averages as the ranking left them: throttling alone never opens a breaker.
pub execute_throttled :
    (encode : Encoder) (is_complex : List Message → Bool)
    (inadequate : List Message → Response → Bool) (c : RouterConfig) (backends : Backends) (now : ℕ)
    (messages : List Message) (o : Options) (s : RouterState)
    → IsThrottling backends
    → min_attempt_sec ≤ c.timeout_sec
    → IsUnharmed
        (get_ranked_adapters encode is_complex c now messages o s).1
        (execute encode is_complex inadequate c backends now messages o s).1
      × ((r : Response)
          → ¬ ((execute encode is_complex inadequate c backends now messages o s).0 ≡ routed r))
unfolding execute
execute_throttled encode is_complex inadequate c backends now messages o s busy patient =
    elim (Routed-cases (get_ranked_adapters encode is_complex c now messages o s).0) [
      | inl (e, q) ↦ rw (q, execute) ((refl, refl), λ r k. ground (arith, k))
      | inr (ranked, q) ↦
          rw (q, execute)
            (failover-IsUnharmed c backends (inadequate messages) (now + c.total_deadline_sec) busy
              patient _ 0 ranked
              (begin_run now (get_ranked_adapters encode is_complex c now messages o s).1)
              (refl, refl))
    ]
