-- ===== src/Guardrails/Pieces.antt =====
-- What a streamed answer is made of: the pieces that were redacted and sent, and where it is cut.
use mathlib.Core.List.{append_assoc, append-nil}
use llm_gateway_with_cost_co.Prelude.{
  Bool, Bool-cases, List, false, inl, inr, refl, true, ◌++◌, ◌∷◌, ◌≡◌, ◌⊎◌, [], drop, if◌then◌else◌,
  sym, take, take-append-drop, ◌∙◌, ap,
}
use llm_gateway_with_cost_co.Guardrails.{
  stream, GuardrailsPipeline, OutputFilter, is_leak, feed, sanitize_completion, flush, screen,
  release, emit_boundary, same_text, new_filter,
}
use llm_gateway_with_cost_co.Text.{Text, flat}

-- The pieces as they are sent
abbrev pub cleaned : GuardrailsPipeline → List Text → Text
cleaned p [] = []
cleaned p (t ∷ ts) = sanitize_completion p t ++ cleaned p ts

-- The text went out in redacted pieces, and no leak was in what had been sent with the last piece.
abbrev pub Delivered : GuardrailsPipeline → Text → Text → Text → Type 0
Delivered p released text out =
    (sent : List Text) × (final : Text) × (flat sent ++ final ≡ text)
    × (out ≡ cleaned p sent ++ sanitize_completion p final)
    × (is_leak p (released ++ (cleaned p sent ++ final)) ≡ false)

-- A leak was in what had been sent with the text that was still held, and none of that went out.
abbrev pub CutShort : GuardrailsPipeline → Text → Text → Text → Type 0
CutShort p released text out =
    (sent : List Text) × (held : Text) × (unsent : Text) × (flat sent ++ (held ++ unsent) ≡ text)
    × (out ≡ cleaned p sent)
    × (is_leak p (released ++ (out ++ held)) ≡ true)

abbrev pub Ended : GuardrailsPipeline → Text → Text → Text × OutputFilter → Type 0
Ended p released text (out, f) =
    ((f.leaked ≡ false) × Delivered p released text out)
    ⊎ ((f.leaked ≡ true) × CutShort p released text out)

abbrev running : Text → Text → Bool → OutputFilter
running t r b = record { pending = t; released = r; leaked = false; redacted = b }

abbrev stopped : Text → Text → Bool → OutputFilter
stopped t r b = record { pending = t; released = r; leaked = true; redacted = b }

silent :
    (p : GuardrailsPipeline) (ds : List Text) (t r : Text) (b : Bool)
    → stream p ds (stopped t r b) ≡ ([], stopped t r b)
unfolding stream feed flush
silent p [] t r b = refl
silent p (d ∷ ds) t r b = rw (silent p ds t r b) refl

-- A piece that was sent before
Ended-later :
    (p : GuardrailsPipeline) (piece rest r : Text) (run : Text × OutputFilter)
    → Ended p (r ++ sanitize_completion p piece) rest run
    → Ended p r (piece ++ rest) (sanitize_completion p piece ++ run.0, run.1)
Ended-later p piece rest r run (inl (l, (sent, final, whole, out, clean))) =
    let safe = sanitize_completion p piece in
    inl (
      l,
      (
        piece ∷ sent,
        final,
        append_assoc piece (flat sent) final ∙ rw whole refl,
        rw out (sym (append_assoc safe (cleaned p sent) (sanitize_completion p final))),
        rw
            (
              append_assoc safe (cleaned p sent) final,
              sym (append_assoc r safe (cleaned p sent ++ final)),
            )
            clean,
      ),
    )
Ended-later p piece rest r run (inr (l, (sent, held, unsent, whole, out, leak))) =
    let safe = sanitize_completion p piece in
    inr (
      l,
      (
        piece ∷ sent,
        held,
        unsent,
        append_assoc piece (flat sent) (held ++ unsent) ∙ rw whole refl,
        rw out refl,
        rw (append_assoc safe run.0 held, sym (append_assoc r safe (run.0 ++ held))) leak,
      ),
    )

stream_ends :
    (p : GuardrailsPipeline) (ds : List Text) (t r : Text) (b : Bool)
    → Ended p r (t ++ flat ds) (stream p ds (running t r b))
unfolding stream feed flush screen release
stream_ends p [] t r b = elim (Bool-cases (is_leak p (r ++ t))) [
  | inl h ↦ rw h (inr (refl, ([], t, [], refl, refl, h)))
  | inr h ↦ rw h (inl (refl, ([], t, sym (append-nil t), refl, h)))
]
stream_ends p (d ∷ ds) t r b =
    let limit = emit_boundary p (t ++ d) in
    let piece = take limit (t ++ d) in
    let kept = drop limit (t ++ d) in
    let safe = sanitize_completion p piece in
    let b' = if same_text safe piece then b else true in
    elim (Bool-cases (is_leak p (r ++ (t ++ d)))) [
      | inl h ↦
          rw (h, silent p ds [] r b)
            (inr (refl, ([], t ++ d, flat ds, append_assoc t d (flat ds), refl, h)))
      | inr h ↦
          let whole : piece ++ (kept ++ flat ds) ≡ t ++ (d ++ flat ds) =
            sym (append_assoc piece kept (flat ds))
            ∙ (ap (λ (u : Text). u ++ flat ds) (take-append-drop limit (t ++ d))
                ∙ append_assoc t d (flat ds)) in
          rw (h, sym whole)
            (Ended-later p piece (kept ++ flat ds) r (stream p ds (running kept (r ++ safe) b'))
              (stream_ends p ds kept (r ++ safe) b'))
    ]

-- An answer that is fed to the filter piece by piece and then flushed either went out whole, every
-- code point once and in order, in pieces that were redacted, and no leak pattern is found in what
-- was sent followed by the last piece as the model wrote it; or the filter stopped: what went out is
-- redacted pieces of a beginning of the answer, a leak pattern is found in what had been sent
-- followed by the text that was held then, and neither that text nor anything after it was sent.
pub stream_sends_cleaned :
    (p : GuardrailsPipeline) (deltas : List Text)
    → Ended p [] (flat deltas) (stream p deltas new_filter)
stream_sends_cleaned p deltas = stream_ends p deltas [] [] false
