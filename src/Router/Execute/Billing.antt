-- ===== src/Router/Execute/Billing.antt =====
-- Who pays for what `execute` (gateway/policy/router.py) received, cascade's discarded replies included.
use llm_gateway_with_cost_co.Prelude.{
  arith, Bool, Bool-cases, List, inl, inr, not, refl, ℕ, ◌&&◌, ◌+◌, ◌∷◌, ◌≡◌, [],
}
use llm_gateway_with_cost_co.Router.Execute.{
  on_last_failure, execute, Attempted, on_reply, count_throttled, Backends, Run, call, answered,
  failover, attempts, is_cascade, move_on, sleep, failed_for_good, out_of_time, max_retries,
  begin_run,
}
use llm_gateway_with_cost_co.Router.{RouterConfig, Routed, routed, raised, Options, RouterState}
use llm_gateway_with_cost_co.Adapter.{Encoder, Response, Adapter, Message}
use llm_gateway_with_cost_co.Text.{is_empty}
use llm_gateway_with_cost_co.Router.Ranking.Failing.{Routed-cases}
use llm_gateway_with_cost_co.Router.Execute.Rule.{Attempted-cases, attempts_rule}
use llm_gateway_with_cost_co.Router.Ranking.{get_ranked_adapters}
use llm_gateway_with_cost_co.Router.Failure.{is_rate_limit_error}

-- What the answer is to cost, and what an error leaves uncharged.
abbrev pub IsBilled : Routed Response → Run → Type 0
IsBilled (routed r) run = r.cost_usd ≡ run.received
IsBilled (raised e) run = run.cascade_discarded_cost ≡ run.received

-- The same at the end of one adapter's attempts.
abbrev IsTallied : Attempted → Run → Type 0
IsTallied (answered r) run = r.cost_usd ≡ run.received
IsTallied move_on run = run.cascade_discarded_cost ≡ run.received
IsTallied out_of_time run = run.cascade_discarded_cost ≡ run.received

reply_tallies :
    (c : RouterConfig) (inadequate : Response → Bool) (a : Adapter) (rank_idx : ℕ) (is_last : Bool)
    (r : Response) (run : Run)
    → run.cascade_discarded_cost ≡ run.received
    → IsTallied
        (on_reply c inadequate a rank_idx is_last r run).0
        (on_reply c inadequate a rank_idx is_last r run).1
unfolding on_reply
reply_tallies c inadequate a rank_idx is_last r run h =
    elim (Bool-cases (is_cascade c.strategy && not is_last && inadequate r)) [
      | inl e ↦ rw (e) (omega (arith, h))
      | inr e ↦ rw (e) (omega (arith, h))
    ]

failure_tallies :
    (c : RouterConfig) (a : Adapter) (throttled : Bool) (run : Run)
    → ((on_last_failure c a throttled (count_throttled throttled run)).cascade_discarded_cost
        ≡ run.cascade_discarded_cost)
      × ((on_last_failure c a throttled (count_throttled throttled run)).received ≡ run.received)
unfolding on_last_failure count_throttled
failure_tallies c a throttled run = ground arith

module _ (c : RouterConfig) (backends : Backends) (inadequate : Response → Bool)
    (deadline : ℕ) where
  attempts-IsTallied :
      (a : Adapter) (rank_idx : ℕ) (is_last : Bool) (run : Run)
      → run.cascade_discarded_cost ≡ run.received
      → IsTallied
          (attempts c backends inadequate deadline a rank_idx is_last (max_retries + 1) 0 run).0
          (attempts c backends inadequate deadline a rank_idx is_last (max_retries + 1) 0 run).1
  unfolding call sleep count_throttled failed_for_good
  attempts-IsTallied a rank_idx is_last run h =
      attempts_rule c backends inadequate deadline a rank_idx is_last
        {Before = λ _ _ s. s.cascade_discarded_cost ≡ s.received} {After = IsTallied}
        record {
          none_left = λ _ _ b. b;
          too_late = λ _ _ _ b. b;
          replied = λ _ _ s r b _ _. reply_tallies c inadequate a rank_idx is_last r _ b;
          retried = λ _ _ _ _ b _ _. b;
          retried_failure = λ _ _ _ _ _ b _ _. b;
          given_up = λ _ _ _ b _ _ _. b;
          given_up_failure = λ _ _ s e b _ _ _.
              ground (
                arith,
                failure_tallies c a (is_rate_limit_error e) (call c backends deadline a s).1,
              );
        }
        (max_retries + 1) 0 run h

  failover-IsBilled :
      (rank_idx : ℕ) (ranked : List Adapter) (run : Run)
      → run.cascade_discarded_cost ≡ run.received
      → IsBilled
          (failover c backends inadequate deadline rank_idx ranked run).0
          (failover c backends inadequate deadline rank_idx ranked run).1
  unfolding failover
  failover-IsBilled rank_idx [] run h = h
  failover-IsBilled rank_idx (a ∷ ranked) run h =
      let one =
        attempts c backends inadequate deadline a rank_idx (is_empty ranked) (max_retries + 1) 0
          run in
      let ended = attempts-IsTallied a rank_idx (is_empty ranked) run h in
      Attempted-cases one.0 (λ r q. rw (q, failover) (rw (q) at ended))
        (λ q. rw (q, failover) (failover-IsBilled (rank_idx + 1) ranked one.1 (rw (q) at ended)))
        (λ q. rw (q, failover) (rw (q) at ended))

-- An answer of `execute` costs the sum of all replies that the request received, those that cascade
-- discarded included; when it ends in an error, `cascade_discarded_cost` is that whole sum.
pub execute_bills :
    (encode : Encoder) (is_complex : List Message → Bool)
    (inadequate : List Message → Response → Bool) (c : RouterConfig) (backends : Backends) (now : ℕ)
    (messages : List Message) (o : Options) (s : RouterState)
    → IsBilled
        (execute encode is_complex inadequate c backends now messages o s).0
        (execute encode is_complex inadequate c backends now messages o s).1
unfolding execute
execute_bills encode is_complex inadequate c backends now messages o s =
    elim (Routed-cases (get_ranked_adapters encode is_complex c now messages o s).0) [
      | inl (e, q) ↦ rw (q, execute) refl
      | inr (ranked, q) ↦
          rw (q, execute)
            (failover-IsBilled c backends (inadequate messages) (now + c.total_deadline_sec) 0
              ranked (begin_run now (get_ranked_adapters encode is_complex c now messages o s).1)
              refl)
    ]
