-- ===== src/Gateway/Streaming/Steps.antt =====
-- What one step of the screening and of the restoring does with the text of a stream.
use mathlib.Core.List.{append_assoc, append-nil}
use llm_gateway_with_cost_co.Prelude.{
  arith, Bool-cases, List, ap, drop, false, inl, inr, refl, sym, take, take-append-drop, true, ◌++◌,
  ◌∙◌, ◌∷◌, ◌≡◌, [], ◌⊎◌,
}
use llm_gateway_with_cost_co.Pii.Restorer.{
  feed_text, flush_text, restore_text, VaultRestorer, token_boundary,
}
use llm_gateway_with_cost_co.Pii.{CharTables}
use llm_gateway_with_cost_co.Text.{Text, is_empty, flat}
use llm_gateway_with_cost_co.Pii.Restorer.Tail.{restored, flat-snoc, restored-snoc, drop-length}
use llm_gateway_with_cost_co.Guardrails.{
  GuardrailsPipeline, flush, feed, OutputFilter, release, is_leak, sanitize_completion, screen,
  emit_boundary,
}
use llm_gateway_with_cost_co.Gateway.Streaming.{screen_text}
use llm_gateway_with_cost_co.Guardrails.Pieces.{cleaned}

-- The text so far went through the restorer: what was sent, and what is held back.
abbrev pub Restores : CharTables → List (Text × Text) → Text → Text → VaultRestorer → Type 0
Restores tables mapping written out r =
    (pieces : List Text) × (flat pieces ++ r.pending ≡ written)
    × (out ≡ restored tables mapping pieces)
    × (r.mapping ≡ mapping)
    × (is_empty mapping ≡ true → r.pending ≡ [])

nil_of_empty : (t : Text) → is_empty t ≡ true → t ≡ []
nil_of_empty [] h = refl
nil_of_empty (c ∷ t) h = absurd (ground (arith, h))

restore_text-unmasked :
    (tables : CharTables) (mapping : List (Text × Text)) (t : Text)
    → is_empty mapping ≡ true
    → restore_text tables mapping t ≡ t
unfolding restore_text
restore_text-unmasked tables mapping [] h = refl
restore_text-unmasked tables mapping (c ∷ t) h = rw h refl

pub feed_text-Restores :
    (tables : CharTables) (mapping : List (Text × Text)) (written out t : Text) (r : VaultRestorer)
    → Restores tables mapping written out r
    → Restores tables mapping
        (written ++ t)
        (out ++ (feed_text tables t r).0)
        (feed_text tables t r).1
unfolding feed_text
feed_text-Restores tables mapping written out t r (pieces, whole, sent, same, empty) =
    let limit = token_boundary (r.pending ++ t) in
    let piece = take limit (r.pending ++ t) in
    let kept = drop limit (r.pending ++ t) in
    elim (Bool-cases (is_empty r.mapping)) [
      | inl q ↦
          let none_masked : is_empty mapping ≡ true = rw same at q in
          let nothing = empty none_masked in
          let all : flat pieces ≡ written =
            sym (append-nil (flat pieces)) ∙ (rw nothing at whole) in
          rw (q, feed_text)
            (
              pieces ++ t ∷ [],
              ap (λ (u : Text). flat (pieces ++ t ∷ []) ++ u) nothing
                  ∙ append-nil (flat (pieces ++ t ∷ []))
                  ∙ flat-snoc pieces t
                  ∙ ap (λ (u : Text). u ++ t) all,
              ap (λ (u : Text). u ++ t) sent
                  ∙ ap (λ (u : Text). restored tables mapping pieces ++ u)
                      (sym (restore_text-unmasked tables mapping t none_masked))
                  ∙ sym (restored-snoc tables mapping pieces t),
              same,
              empty,
            )
      | inr q ↦
          let some_masked : is_empty mapping ≡ false = rw same at q in
          rw (q, feed_text)
            (
              pieces ++ piece ∷ [],
              ap (λ (u : Text). u ++ kept) (flat-snoc pieces piece)
                  ∙ append_assoc (flat pieces) piece kept
                  ∙ ap (λ (u : Text). flat pieces ++ u) (take-append-drop limit (r.pending ++ t))
                  ∙ sym (append_assoc (flat pieces) r.pending t)
                  ∙ ap (λ (u : Text). u ++ t) whole,
              ap (λ (u : Text). u ++ restore_text tables r.mapping piece) sent
                  ∙ ap
                      (λ (m : List (Text × Text)).
                        restored tables mapping pieces ++ restore_text tables m piece)
                      same
                  ∙ sym (restored-snoc tables mapping pieces piece),
              same,
              λ e. absurd (ground (arith, e, some_masked)),
            )
    ]

pub flush_text-Restores :
    (tables : CharTables) (mapping : List (Text × Text)) (written out : Text) (r : VaultRestorer)
    → Restores tables mapping written out r
    → Restores tables mapping written (out ++ (flush_text tables r).0) (flush_text tables r).1
      × ((flush_text tables r).1.pending ≡ [])
unfolding flush_text
flush_text-Restores tables mapping written out r (pieces, whole, sent, same, empty) =
    elim (Bool-cases (is_empty r.pending)) [
      | inl q ↦
          rw (q, flush_text)
            ((pieces, whole, append-nil out ∙ sent, same, empty), nil_of_empty r.pending q)
      | inr q ↦
          rw (q, flush_text)
            (
              (
                pieces ++ r.pending ∷ [],
                append-nil (flat (pieces ++ r.pending ∷ [])) ∙ flat-snoc pieces r.pending ∙ whole,
                ap (λ (u : Text). u ++ restore_text tables r.mapping r.pending) sent
                    ∙ ap
                        (λ (m : List (Text × Text)).
                          restored tables mapping pieces ++ restore_text tables m r.pending)
                        same
                    ∙ sym (restored-snoc tables mapping pieces r.pending),
                same,
                λ e. refl,
              ),
              refl,
            )
    ]

-- The text so far went through the screening, or a leak was found in it.
abbrev pub Screens : GuardrailsPipeline → Text → OutputFilter → Type 0
Screens p written f =
    (sent : List Text) × (flat sent ++ f.pending ≡ written) × (f.released ≡ cleaned p sent)

cleaned-snoc :
    (p : GuardrailsPipeline) (ts : List Text) (t : Text)
    → cleaned p (ts ++ t ∷ []) ≡ cleaned p ts ++ sanitize_completion p t
cleaned-snoc p [] t = append-nil (sanitize_completion p t)
cleaned-snoc p (u ∷ ts) t =
    rw (cleaned-snoc p ts t)
      (sym (append_assoc (sanitize_completion p u) (cleaned p ts) (sanitize_completion p t)))

-- One step of the filter, to a filter that has found no leak
abbrev pub Passes : GuardrailsPipeline → Text → Text × OutputFilter → OutputFilter → Type 0
Passes p written step f = Screens p written step.1 × ((step.1).released ≡ f.released ++ step.0)

pub screen_text-Passes :
    (p : GuardrailsPipeline) (tables : CharTables) (written t : Text) (f : OutputFilter)
    → Screens p written f
    → (((screen_text p tables t f).1).leaked ≡ true)
      ⊎ Passes p (written ++ t) (screen_text p tables t f) f
unfolding screen_text feed screen release
screen_text-Passes p tables written t f (sent, whole, clean) =
    let held = f.pending ++ t in
    let limit = emit_boundary p held in
    let piece = take limit held in
    elim (Bool-cases (is_empty t)) [
      | inl none_given ↦
          let nothing = nil_of_empty t none_given in
          rw nothing
            (inr ((sent, whole ∙ sym (append-nil written), clean), sym (append-nil f.released)))
      | inr some_given ↦ elim (Bool-cases f.leaked) [
        | inl l ↦ rw (some_given, l, screen_text, feed) (inl refl)
        | inr l ↦ elim (Bool-cases (is_leak p (f.released ++ held))) [
          | inl q ↦ rw (some_given, l, q, screen_text, feed) (inl refl)
          | inr q ↦
              rw (some_given, l, q, screen_text, feed)
                (inr (
                  (
                    sent ++ piece ∷ [],
                    ap (λ (u : Text). u ++ drop limit held) (flat-snoc sent piece)
                        ∙ append_assoc (flat sent) piece (drop limit held)
                        ∙ ap (λ (u : Text). flat sent ++ u) (take-append-drop limit held)
                        ∙ sym (append_assoc (flat sent) f.pending t)
                        ∙ ap (λ (u : Text). u ++ t) whole,
                    ap (λ (u : Text). u ++ sanitize_completion p piece) clean
                        ∙ sym (cleaned-snoc p sent piece),
                  ),
                  refl,
                ))
        ]
      ]
    ]

pub flush-Passes :
    (p : GuardrailsPipeline) (written : Text) (f : OutputFilter)
    → Screens p written f
    → ((flush p f).1.leaked ≡ true)
      ⊎ (Passes p written (flush p f) f × ((flush p f).1.pending ≡ []))
unfolding flush release
flush-Passes p written f (sent, whole, clean) = elim (Bool-cases f.leaked) [
  | inl l ↦ rw (l, flush) (inl refl)
  | inr l ↦ elim (Bool-cases (is_leak p (f.released ++ f.pending))) [
    | inl q ↦ rw (l, q, flush) (inl refl)
    | inr q ↦
        rw (l, q, flush)
          (inr (
            (
              (
                sent ++ f.pending ∷ [],
                ap (λ (u : Text). flat (sent ++ f.pending ∷ []) ++ u) (drop-length f.pending)
                    ∙ append-nil (flat (sent ++ f.pending ∷ []))
                    ∙ flat-snoc sent f.pending
                    ∙ whole,
                ap (λ (u : Text). u ++ sanitize_completion p f.pending) clean
                    ∙ sym (cleaned-snoc p sent f.pending),
              ),
              refl,
            ),
            drop-length f.pending,
          ))
  ]
]
