-- ===== src/Router/Execute/Rule.antt =====
-- One rule for the attempts on an adapter (gateway/policy/router.py): what holds before an attempt,
-- by the attempts that are left, and what holds of the way they end.
use llm_gateway_with_cost_co.Prelude.{
  Bool, suc, zero, ℕ, ◌+◌, ◌≡◌, ◌≤◌, Bool-cases, inl, inr, leb, refl, arith, get_or, ltb, false,
}
use llm_gateway_with_cost_co.Router.Execute.{
  Run, Backends, attempts, Attempted, move_on, out_of_time, call, reply, on_reply, sleep,
  count_throttled, max_retries, failed_for_good, on_last_failure, min_attempt_sec, Awaited,
  timed_out, failure, backoff_guess, answered,
}
use llm_gateway_with_cost_co.Router.{RouterConfig}
use llm_gateway_with_cost_co.Adapter.{Response, Adapter}
use llm_gateway_with_cost_co.Router.Failure.{Failure, retry_after_seconds, is_rate_limit_error}

abbrev pub late : Run → Run
late run = record run { deadline_exceeded_total = run.deadline_exceeded_total + 1 }

Awaited-cases :
    {P : Type 0} (w : Awaited)
    → ((r : Response) → w ≡ reply r → P)
    → (w ≡ timed_out → P)
    → ((e : Failure) → w ≡ failure e → P)
    → P
Awaited-cases (reply r) f g h = f r refl
Awaited-cases timed_out f g h = g refl
Awaited-cases (failure e) f g h = h e refl

pub Attempted-cases :
    {P : Type 0} (end : Attempted)
    → ((r : Response) → end ≡ answered r → P)
    → (end ≡ move_on → P)
    → (end ≡ out_of_time → P)
    → P
Attempted-cases (answered r) f g h = f r refl
Attempted-cases move_on f g h = g refl
Attempted-cases out_of_time f g h = h refl

module _ (c : RouterConfig) (backends : Backends) (inadequate : Response → Bool) (deadline : ℕ)
    (a : Adapter) (rank_idx : ℕ) (is_last : Bool) where
  abbrev InTime : Run → Type 0
  InTime run = leb deadline (run.clock + min_attempt_sec) ≡ false

  -- `Before left attempt run`, and `After ending run`; a call is made only when time is left.
  pub record Keeps (Before : ℕ → ℕ → Run → Type 0) (After : Attempted → Run → Type 0) : Type 0 where
    pub none_left : (attempt : ℕ) (run : Run) → Before 0 attempt run → After move_on run
    pub too_late :
        (left attempt : ℕ) (run : Run)
        → Before (suc left) attempt run
        → After out_of_time (late run)
    pub replied :
        (left attempt : ℕ) (run : Run) (r : Response)
        → Before (suc left) attempt run
        → InTime run
        → (call c backends deadline a run).0 ≡ reply r
        → After
            (on_reply c inadequate a rank_idx is_last r (call c backends deadline a run).1).0
            (on_reply c inadequate a rank_idx is_last r (call c backends deadline a run).1).1
    pub retried :
        (left attempt wait : ℕ) (run : Run)
        → Before (suc left) attempt run
        → InTime run
        → (call c backends deadline a run).0 ≡ timed_out
        → Before left (attempt + 1) (sleep deadline wait (call c backends deadline a run).1)
    pub retried_failure :
        (left attempt wait : ℕ) (run : Run) (e : Failure)
        → Before (suc left) attempt run
        → InTime run
        → (call c backends deadline a run).0 ≡ failure e
        → Before left (attempt + 1) (
            sleep deadline wait
              (count_throttled (is_rate_limit_error e) (call c backends deadline a run).1))
    pub given_up :
        (left attempt : ℕ) (run : Run)
        → Before (suc left) attempt run
        → InTime run
        → (call c backends deadline a run).0 ≡ timed_out
        → max_retries ≤ attempt
        → After move_on (failed_for_good c a (call c backends deadline a run).1)
    pub given_up_failure :
        (left attempt : ℕ) (run : Run) (e : Failure)
        → Before (suc left) attempt run
        → InTime run
        → (call c backends deadline a run).0 ≡ failure e
        → max_retries ≤ attempt
        → After move_on (
            on_last_failure c a
              (is_rate_limit_error e)
              (count_throttled (is_rate_limit_error e) (call c backends deadline a run).1))

  pub attempts_rule :
      {Before : ℕ → ℕ → Run → Type 0} {After : Attempted → Run → Type 0}
      → Keeps Before After
      → (left attempt : ℕ) (run : Run) → Before left attempt run
      → After
          (attempts c backends inadequate deadline a rank_idx is_last left attempt run).0
          (attempts c backends inadequate deadline a rank_idx is_last left attempt run).1
  unfolding attempts
  attempts_rule k zero attempt run h = k.none_left attempt run h
  attempts_rule k (suc left) attempt run h =
      elim (Bool-cases (leb deadline (run.clock + min_attempt_sec))) [
        | inl e ↦ rw (e, attempts) (k.too_late left attempt run h)
        | inr e ↦
            rw (e, attempts)
              (Awaited-cases (call c backends deadline a run).0
                (λ r q. rw (q) (k.replied left attempt run r h e q))
                (λ q. rw (q) (elim (Bool-cases (ltb attempt max_retries)) [
                  | inl l ↦ rw (l) (
                      attempts_rule k left (attempt + 1) _
                        (k.retried left attempt (backoff_guess attempt) run h e q))
                  | inr g ↦ rw (g) (k.given_up left attempt run h e q (ground arith))
                ]))
                (λ f q. rw (q) (elim (Bool-cases (ltb attempt max_retries)) [
                  | inl l ↦ rw (l) (
                      attempts_rule k left (attempt + 1) _ (
                        k.retried_failure left attempt
                          (get_or (retry_after_seconds f) (backoff_guess attempt)) run f h e q))
                  | inr g ↦ rw (g) (k.given_up_failure left attempt run f h e q (ground arith))
                ])))
      ]
