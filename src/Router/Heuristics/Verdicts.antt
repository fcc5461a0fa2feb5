-- ===== src/Router/Heuristics/Verdicts.antt =====
-- What the heuristics of gateway/policy/router.py decide.
use llm_gateway_with_cost_co.Prelude.{
  arith, Bool, List, false, leb, length, ltb, not, ℕ, ◌&&◌, ◌+◌, ◌<◌, ◌≡◌, ◌≤◌, ◌||◌, refl, true,
  ◌∷◌, [],
}
use llm_gateway_with_cost_co.Router.Heuristics.{
  is_response_inadequate, is_complex_request, complexity_score, Patterns, signals, full_prompt,
  complexity_threshold, prompt_of, inadequate_reply,
}
use llm_gateway_with_cost_co.Router.Execute.{on_reply, Run, answered, is_cascade}
use llm_gateway_with_cost_co.Adapter.{Message, Response, Adapter}
use llm_gateway_with_cost_co.Text.{is_empty, Text}
use llm_gateway_with_cost_co.Router.{RouterConfig}

-- A request with a prompt that is not blank is complex exactly when the capped signals of the
-- prompt, at most 10 together, reach the threshold: the rule that scores short plain questions 0
-- never changes the verdict.
pub is_complex-signals :
    (p : Patterns) (min_tokens : ℕ) (messages : List Message)
    → is_empty messages ≡ false
    → is_empty (full_prompt messages) ≡ false
    → (is_complex_request p min_tokens messages
        ≡ leb complexity_threshold (signals p min_tokens (full_prompt messages)))
      × (signals p min_tokens (full_prompt messages) ≤ 10)
unfolding is_complex_request complexity_score signals
is_complex-signals p min_tokens messages some_message some_text = ground arith

length-nonempty : (t : Text) → is_empty t ≡ false → 1 ≤ length t
length-nonempty [] h = absurd (ground (arith, h))
length-nonempty (c ∷ t) h = omega arith

length-empty : (t : Text) → is_empty t ≡ true → length t ≡ 0
length-empty [] h = refl
length-empty (c ∷ t) h = absurd (ground (arith, h))

-- A reply is inadequate exactly when it is blank, was cut off, is a refusal of at most 120
-- characters, or has under 80 characters where the prompt asks for substance; the floor of one
-- character decides nothing.
is_response_inadequate_cases :
    (p : Patterns) (stopped_early : Bool) (messages : List Message) (r : Response)
    → let text = full_prompt r.messages in
      is_response_inadequate p stopped_early messages r ≡ (
        is_empty text
        || stopped_early
        || leb (length text) 120 && p.refusal_patterns text
        || not (is_empty (prompt_of messages))
          && p.substantive_request (prompt_of messages)
          && ltb (length text) 80)
unfolding is_response_inadequate
is_response_inadequate_cases p stopped_early messages r =
    ground (arith, length-nonempty (full_prompt r.messages))

reply_adequate :
    (c : RouterConfig) (inadequate : Response → Bool) (a : Adapter) (rank_idx : ℕ) (is_last : Bool)
    (r : Response) (run : Run)
    → inadequate r ≡ false
    → (on_reply c inadequate a rank_idx is_last r run).0
      ≡ answered (record r {
        cost_usd = r.cost_usd + run.cascade_discarded_cost;
        is_fallback = r.is_fallback || ltb 0 rank_idx;
      })
unfolding on_reply
reply_adequate c inadequate a rank_idx is_last r run e =
    let stays : (is_cascade c.strategy && not is_last && inadequate r) ≡ false =
      ground (arith, e) in
    rw (stays, on_reply) refl

-- Cascade never escalates a reply of more than 120 characters: it is the answer, at its own cost
-- and that of the replies discarded before it.
long_reply_answers :
    (p : Patterns) (c : RouterConfig) (messages : List Message) (a : Adapter) (rank_idx : ℕ)
    (is_last : Bool) (r : Response) (run : Run)
    → 120 < length (full_prompt r.messages)
    → (on_reply c (inadequate_reply p messages) a rank_idx is_last r run).0
      ≡ answered (record r {
        cost_usd = r.cost_usd + run.cascade_discarded_cost;
        is_fallback = r.is_fallback || ltb 0 rank_idx;
      })
unfolding is_response_inadequate
long_reply_answers p c messages a rank_idx is_last r run long =
    let adequate : inadequate_reply p messages r ≡ false =
      ground (arith, length-empty (full_prompt r.messages), long) in
    rw (reply_adequate c (inadequate_reply p messages) a rank_idx is_last r run adequate) refl
