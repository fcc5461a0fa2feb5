-- ===== src/Gateway/Answers/Hits.antt =====
-- An answer from the cache (gateway/main.py) against the answer that was stored: a later caller gets,
-- whole or streamed, what the backend's answer would have been restored to for that caller.
use llm_gateway_with_cost_co.Prelude.{
  Bool, Bool-cases, List, String, if◌then◌else◌, ◌==◌, Option, inl, inr, refl, some, none, true, ap,
  ◌∙◌, ◌∷◌, ◌≡◌, ◌≤◌, ◌+◌, ◌++◌, ℕ, [], arith,
}
use llm_gateway_with_cost_co.Gateway.Answers.{
  CompletionChoice, Completion, cached_answer, cached_deltas, deliver, masked_answer,
  restore_choices, restore_completion, restore_hit, spaced, split_words, space, sanitized_contents,
}
use llm_gateway_with_cost_co.Guardrails.{GuardrailsPipeline, is_leak}
use llm_gateway_with_cost_co.Text.{Text, codes, flat, is_empty, join}
use llm_gateway_with_cost_co.Pii.{CharTables}
use llm_gateway_with_cost_co.Pii.Restorer.{restore_text}
use llm_gateway_with_cost_co.Adapter.{Message, Response}
use llm_gateway_with_cost_co.Cache.{
  Fingerprint, Kwargs, PromptCache, get, generate_key, is_cacheable,
}
use llm_gateway_with_cost_co.Cache.Replay.{get-set}
use llm_gateway_with_cost_co.Router.{Options}

flat-spaced-split_words : (t : Text) → (split_words t).0 ++ flat (spaced (split_words t).1) ≡ t
unfolding split_words spaced
flat-spaced-split_words [] = refl
flat-spaced-split_words (c ∷ t) =
    let rest = flat-spaced-split_words t in
    elim (Bool-cases (c == space)) [
      | inl blank ↦
          let is : space ≡ c = ground (arith, blank) in rw (blank, is) (ap (λ u. c ∷ u) rest)
      | inr other ↦ rw other (ap (λ u. c ∷ u) rest)
    ]

abbrev pub first_content : List CompletionChoice → Option Text
first_content [] = none
first_content (c ∷ cs) = some c.content

abbrev pub sent : Option (List Text) → Option Text
sent none = none
sent (some ts) = some (flat ts)

module _ (tables : CharTables) where
  restored_unless_empty :
      (mapping : List (Text × Text)) (role : String) (t : Text)
      → ◌≡◌ {A = CompletionChoice}
          (if is_empty t
            then record { role = role; content = t }
            else record { role = role; content = restore_text tables mapping t })
          (record { role = role; content = restore_text tables mapping t })
  unfolding restore_text
  restored_unless_empty mapping role [] = refl
  restored_unless_empty mapping role (x ∷ t) = refl

  restore_hit_lem :
      (mapping : List (Text × Text)) (cs : List CompletionChoice)
      → restore_hit tables mapping cs ≡ restore_choices tables mapping cs
  unfolding restore_hit restore_choices
  restore_hit_lem mapping [] = refl
  restore_hit_lem mapping (c ∷ cs) = rw (restore_hit_lem mapping cs) (
      ap (λ (d : CompletionChoice). d ∷ restore_choices tables mapping cs)
        (restored_unless_empty mapping c.role c.content))

  cached_answer_lem :
      (mapping : List (Text × Text)) (r : Completion)
      → cached_answer tables mapping r ≡ restore_completion tables mapping r
  unfolding cached_answer restore_completion
  cached_answer_lem mapping r = rw (restore_hit_lem mapping r.choices) refl

  sent-split_words :
      (t : Text) → sent (some ((split_words t).0 ∷ spaced (split_words t).1)) ≡ some t
  sent-split_words t = ap some (flat-spaced-split_words t)

  sent-cached_deltas :
      (mapping : List (Text × Text)) (r : Completion) (cs : List CompletionChoice)
      → r.choices ≡ cs
      → sent (cached_deltas tables mapping cs)
        ≡ first_content (restore_completion tables mapping r).choices
  unfolding cached_deltas restore_completion restore_choices
  sent-cached_deltas [] r [] e = rw e refl
  sent-cached_deltas [] r (c ∷ cs) e = rw e (sent-split_words c.content)
  sent-cached_deltas (m ∷ ms) r [] e = rw e refl
  sent-cached_deltas (m ∷ ms) r (c ∷ cs) e =
      rw e (sent-split_words (restore_text tables (m ∷ ms) c.content))

module _ (p : GuardrailsPipeline) (tables : CharTables) (loads : Text → Bool)
    (fingerprint : Fingerprint) where
  -- In a cache with room for an entry, once an answer without a leak has been delivered for a request
  -- that may be cached, and with nothing stored or read in between: until `ttl_seconds` have passed, a
  -- request with the same key that may be cached is a hit, whoever sends it. It returns what the delivery itself would have returned for
  -- that caller's mapping of placeholders, and as a stream it sends the first choice of that, piece
  -- by piece, without a change.
  pub hit_answers_as_miss :
      (now later : ℕ) (messages messages' : List Message) (kwargs kwargs' : Kwargs)
      (options : Options) (mapping mapping' : List (Text × Text)) (r : Response)
      (reply : Completion) (c : PromptCache Completion)
      → 1 ≤ c.max_entries
      → is_cacheable kwargs c ≡ true
      → is_cacheable kwargs' c ≡ true
      → generate_key fingerprint messages' kwargs' ≡ generate_key fingerprint messages kwargs
      → later ≤ now + c.ttl_seconds
      → (deliver p tables loads fingerprint now messages kwargs options mapping' r c).0 ≡ inr reply
      → let c' = (deliver p tables loads fingerprint now messages kwargs options mapping r c).1 in
        (stored : Completion) × ((get fingerprint later messages' kwargs' c').0 ≡ some stored)
        × (cached_answer tables mapping' stored ≡ reply)
        × (sent (cached_deltas tables mapping' stored.choices) ≡ first_content reply.choices)
  unfolding deliver
  hit_answers_as_miss now later messages messages' kwargs kwargs' options mapping mapping' r reply c
        room may may' same soon answered =
      let contents = sanitized_contents p r.messages in
      let stored = masked_answer p loads options r in
      elim (Bool-cases (is_leak p (join (codes "\n") contents))) [
        | inl leaks ↦ absurd (ground (arith, leaks, answered))
        | inr clean ↦
            let sent_back : restore_completion tables mapping' stored ≡ reply =
              ground (arith, clean, answered) in
            rw clean (
              stored,
              get-set fingerprint now later messages messages' kwargs kwargs' stored c room may may'
                  same soon,
              cached_answer_lem tables mapping' stored ∙ sent_back,
              sent-cached_deltas tables mapping' stored stored.choices refl
                  ∙ ap (λ (d : Completion). first_content d.choices) sent_back,
            )
      ]
