-- ===== src/Router/Execute/Stuck.antt =====
-- A backend whose probe was let through by a ranking and never sent (gateway/policy/router.py).
use llm_gateway_with_cost_co.Prelude.{
  arith, All, All-imp, Bool, Bool-cases, List, String, ap, false, inl, inr, not, refl, true, ℕ,
  ◌&&◌, ◌+◌, ◌∷◌, ◌≡◌, ◌≢◌, [],
}
use llm_gateway_with_cost_co.Router.Execute.{
  on_last_failure, execute, Run, on_reply, Backends, failed_for_good, call, failover, is_cascade,
  attempts, sleep, count_throttled, max_retries, begin_run,
}
use llm_gateway_with_cost_co.Router.{RouterConfig, Options, RouterState}
use llm_gateway_with_cost_co.Breaker.Cycle.{allows, breaker_others}
use llm_gateway_with_cost_co.Breaker.{get_row}
use llm_gateway_with_cost_co.Adapter.{Response, Adapter, Encoder, Message}
use llm_gateway_with_cost_co.Ledger.{half_open}
use llm_gateway_with_cost_co.Text.{is_empty}
use llm_gateway_with_cost_co.Router.Execute.Rule.{attempts_rule, Attempted-cases}
use llm_gateway_with_cost_co.Router.Ranking.{get_ranked_adapters}
use llm_gateway_with_cost_co.Router.Failure.{is_rate_limit_error}
use llm_gateway_with_cost_co.Router.Ranking.Probe.{breakers-ranked, half_open_stays}
use llm_gateway_with_cost_co.Router.Ranking.Sound.{ranked_sound}
use llm_gateway_with_cost_co.Router.Ranking.Failing.{Routed-cases}

-- Only the row of the backend that is called changes.
reply-get_row :
    (c : RouterConfig) (inadequate : Response → Bool) (a : Adapter) (rank_idx : ℕ) (is_last : Bool)
    (r : Response) (run : Run) (id : String)
    → a.id ≢ id
    → get_row id (on_reply c inadequate a rank_idx is_last r run).1.router.breakers
      ≡ get_row id run.router.breakers
unfolding on_reply
reply-get_row c inadequate a rank_idx is_last r run id ne =
    elim (Bool-cases (is_cascade c.strategy && not is_last && inadequate r)) [
      | inl e ↦ rw (e) (breaker_others c.breaker a.id run.router.breakers id 0 ne).0
      | inr e ↦ rw (e) (breaker_others c.breaker a.id run.router.breakers id 0 ne).0
    ]

failure-get_row :
    (c : RouterConfig) (a : Adapter) (throttled : Bool) (run : Run) (id : String)
    → a.id ≢ id
    → get_row id (on_last_failure c a throttled run).router.breakers
      ≡ get_row id run.router.breakers
unfolding on_last_failure failed_for_good
failure-get_row c a true run id ne = refl
failure-get_row c a false run id ne =
    (breaker_others c.breaker a.id run.router.breakers id run.clock ne).1

abbrev IsStuck : String → Run → Type 0
IsStuck id run = (get_row id run.router.breakers).state ≡ half_open

module _ (c : RouterConfig) (backends : Backends) (inadequate : Response → Bool) (deadline : ℕ)
    (id : String) where
  attempts-IsStuck :
      (a : Adapter) (rank_idx : ℕ) (is_last : Bool) (run : Run)
      → a.id ≢ id
      → IsStuck id run
      → IsStuck id
          (attempts c backends inadequate deadline a rank_idx is_last (max_retries + 1) 0 run).1
  unfolding call sleep count_throttled on_last_failure
  attempts-IsStuck a rank_idx is_last run ne h =
      attempts_rule c backends inadequate deadline a rank_idx is_last
        {Before = λ _ _ run. IsStuck id run} {After = λ _ run. IsStuck id run}
        record {
          none_left = λ _ _ b. b;
          too_late = λ _ _ _ b. b;
          replied =
              λ _ _ run r b _ _. rw (reply-get_row c inadequate a rank_idx is_last r _ id ne) b;
          retried = λ _ _ _ _ b _ _. b;
          retried_failure = λ _ _ _ _ _ b _ _. b;
          given_up = λ _ _ run b _ _ _.
              rw (failure-get_row c a false (call c backends deadline a run).1 id ne) b;
          given_up_failure = λ _ _ run e b _ _ _.
              rw
                (failure-get_row c a (is_rate_limit_error e)
                  (count_throttled (is_rate_limit_error e) (call c backends deadline a run).1) id
                  ne)
                b;
        }
        (max_retries + 1) 0 run h

  failover-IsStuck :
      (rank_idx : ℕ) (ranked : List Adapter) (run : Run)
      → All (λ a. a.id ≢ id) ranked
      → IsStuck id run
      → IsStuck id (failover c backends inadequate deadline rank_idx ranked run).1
  unfolding failover
  failover-IsStuck rank_idx [] run others h = h
  failover-IsStuck rank_idx (a ∷ ranked) run others h =
      let one =
        attempts c backends inadequate deadline a rank_idx (is_empty ranked) (max_retries + 1) 0
          run in
      let ended = attempts-IsStuck a rank_idx (is_empty ranked) run others.0 h in
      Attempted-cases one.0 (λ r q. rw (q, failover) ended)
        (λ q. rw (q, failover) (failover-IsStuck (rank_idx + 1) ranked one.1 others.1 ended))
        (λ q. rw (q, failover) ended)

-- A breaker that is half-open when a request with some message begins is still half-open when
-- `execute` ends, whatever the time, the options and the backends' replies.
pub half_open_stuck :
    (encode : Encoder) (is_complex : List Message → Bool)
    (inadequate : List Message → Response → Bool) (c : RouterConfig) (backends : Backends) (now : ℕ)
    (messages : List Message) (o : Options) (s : RouterState) (id : String)
    → is_empty messages ≡ false
    → (get_row id s.breakers).state ≡ half_open
    → (get_row id
        (execute encode is_complex inadequate c backends now messages o s).1.router.breakers).state
      ≡ half_open
unfolding execute allows
half_open_stuck encode is_complex inadequate c backends now messages o s id some_message h =
    let start = begin_run now (get_ranked_adapters encode is_complex c now messages o s).1 in
    let asked_all : IsStuck id start =
      rw (breakers-ranked encode is_complex c now messages o s)
        (half_open_stays c.breaker now id c.adapters s.breakers h) in
    elim (Routed-cases (get_ranked_adapters encode is_complex c now messages o s).0) [
      | inl (e, q) ↦ rw (q, execute) asked_all
      | inr (ranked, q) ↦
          rw (q, execute)
            (failover-IsStuck c backends (inadequate messages) (now + c.total_deadline_sec) id 0
              ranked start
              (All-imp _ _ _
                (λ a k same. ground (arith, k.1, h, ap (λ (j : String). get_row j s.breakers) same))
                (ranked_sound encode is_complex c now messages o s some_message q))
              asked_all)
    ]
