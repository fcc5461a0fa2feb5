-- ===== src/Gateway/Streaming/Texts.antt =====
-- What the loop over the chunks does with the text of a stream.
use mathlib.Core.List.{append_assoc, append-nil}
use llm_gateway_with_cost_co.Prelude.{
  arith, Bool-cases, List, Option, ap, inl, inr, none, refl, some, sym, true, ◌++◌, ◌∙◌, ◌∷◌, ◌≡◌,
  ◌⊎◌, [], Option-cases, String,
}
use llm_gateway_with_cost_co.Gateway.Streaming.Steps.{
  Restores, Screens, feed_text-Restores, flush_text-Restores, screen_text-Passes, flush-Passes,
}
use llm_gateway_with_cost_co.Gateway.Streaming.{
  Choice, StreamEvent, Chunk, send_some, with_text, release_tails, screen_text, passed_on,
  StreamState, send_choice, guardrail_error, timeout_error, gateway_error, done, send_chunk,
  send_chunks, note_chunk,
}
use llm_gateway_with_cost_co.Guardrails.{GuardrailsPipeline, OutputFilter, feed, flush}
use llm_gateway_with_cost_co.Text.{Text, is_empty}
use llm_gateway_with_cost_co.Pii.{CharTables}
use llm_gateway_with_cost_co.Pii.Restorer.{VaultRestorer, feed_text, flush_text}

-- The text of the first choice in the chunks that are sent, and of those that the router yields
abbrev pub sent_text : List StreamEvent → Text
sent_text [] = []
sent_text (with_text t others ∷ es) = t ++ sent_text es
sent_text (_ ∷ es) = sent_text es

abbrev pub choice_text : Option Choice → Text
choice_text none = []
choice_text (some c) = c.content

abbrev pub written_text : List Chunk → Text
written_text [] = []
written_text (c ∷ cs) = choice_text c.choice ++ written_text cs

pub sent_text-append :
    (es fs : List StreamEvent) → sent_text (es ++ fs) ≡ sent_text es ++ sent_text fs
sent_text-append [] fs = refl
sent_text-append (with_text t others ∷ es) fs =
    rw (sent_text-append es fs) (sym (append_assoc t (sent_text es) (sent_text fs)))
sent_text-append (passed_on c ∷ es) fs = sent_text-append es fs
sent_text-append (guardrail_error ∷ es) fs = sent_text-append es fs
sent_text-append (timeout_error ∷ es) fs = sent_text-append es fs
sent_text-append (gateway_error ∷ es) fs = sent_text-append es fs
sent_text-append (done ∷ es) fs = sent_text-append es fs

pub sent_text-send_some : (t : Text) (others : List Choice) → sent_text (send_some t others) ≡ t
sent_text-send_some [] others = refl
sent_text-send_some (c ∷ t) others = append-nil (c ∷ t)

-- The text so far was screened and then restored, or a leak was found.
abbrev pub Carried :
    GuardrailsPipeline → CharTables → List (Text × Text) → Text → Text → StreamState → Type 0
Carried p tables mapping written out s =
    (s.output_filter.leaked ≡ true)
    ⊎ (Screens p written s.output_filter
        × Restores tables mapping s.output_filter.released out s.vault_restorer)

abbrev pub Emptied :
    GuardrailsPipeline
    → CharTables
    → List (Text × Text)
    → Text
    → Text
    → OutputFilter
    → VaultRestorer
    → Type 0
Emptied p tables mapping written out f r =
    Screens p written f
    × Restores tables mapping f.released out r
    × (f.pending ≡ [])
    × (r.pending ≡ [])

module _ (p : GuardrailsPipeline) (tables : CharTables) (mapping : List (Text × Text)) where
  pub release_tails-Emptied :
      (written out safe before : Text) (f : OutputFilter) (r : VaultRestorer)
      → Screens p written f
      → f.released ≡ before ++ safe
      → Restores tables mapping before out r
      → let tails = release_tails p tables safe f r in
        ((tails.1).leaked ≡ true)
        ⊎ Emptied p tables mapping written (out ++ tails.0) tails.1 tails.2
  unfolding release_tails
  release_tails-Emptied written out safe before f r screened same restores =
      let flushed = flush p f in
      let fed = feed_text tables (safe ++ flushed.0) r in
      elim (flush-Passes p written f screened) [
        | inl l ↦ inl l
        | inr ((clean, grown), dry) ↦
            let total : before ++ (safe ++ flushed.0) ≡ (flushed.1).released =
              sym (append_assoc before safe flushed.0)
              ∙ ap (λ (u : Text). u ++ flushed.0) (sym same)
              ∙ sym grown in
            let next =
              feed_text-Restores tables mapping before out (safe ++ flushed.0) r restores in
            let last =
              flush_text-Restores tables mapping (before ++ (safe ++ flushed.0)) (out ++ fed.0)
                fed.1 next in
            inr (
              clean,
              rw (sym total, sym (append_assoc out fed.0 (flush_text tables fed.1).0)) last.0,
              dry,
              last.1,
            )
      ]

  leaked_stays :
      (t : Text) (f : OutputFilter) → f.leaked ≡ true → ((screen_text p tables t f).1).leaked ≡ true
  unfolding screen_text feed
  leaked_stays t f l = elim (Bool-cases (is_empty t)) [
    | inl q ↦ rw (q, screen_text) l
    | inr q ↦ rw (q, l, screen_text, feed) refl
  ]

  send_choice-Carried :
      (written out : Text) (c : Choice) (s : StreamState)
      → Carried p tables mapping written out s
      → let sent = send_choice p tables c s in
        Carried p tables mapping (written ++ c.content) (out ++ sent_text sent.0) sent.2
  unfolding send_choice
  send_choice-Carried written out c s h =
      let f = s.output_filter in
      let screened = screen_text p tables c.content f in
      let fed = feed_text tables screened.0 s.vault_restorer in
      let tails = release_tails p tables screened.0 screened.1 s.vault_restorer in
      elim (Bool-cases (screened.1).leaked) [
        | inl l ↦ rw (l, send_choice) (inl l)
        | inr l ↦ elim h [
          | inl was ↦ absurd (ground (arith, l, leaked_stays c.content f was))
          | inr (screens, restores) ↦
              elim (screen_text-Passes p tables written c.content f screens) [
                | inl now ↦ absurd (ground (arith, l, now))
                | inr (clean, grown) ↦ elim (Bool-cases c.finished) [
                  | inl q ↦
                      rw (l, q, send_choice, append-nil tails.0)
                        (elim (release_tails-Emptied (written ++ c.content) out screened.0
                          f.released screened.1 s.vault_restorer clean grown restores) [
                            | inl now ↦ inl now
                            | inr (clean', restores', dry, dry') ↦ inr (clean', restores')
                          ])
                  | inr q ↦
                      let next =
                        feed_text-Restores tables mapping f.released out screened.0 s.vault_restorer
                          restores in
                      rw (l, q, send_choice, sent_text-send_some fed.0 s.last_others)
                        (inr (clean, rw grown next))
                ]
              ]
        ]
      ]

  send_chunk-Carried :
      (backend : String) (written out : Text) (c : Chunk) (s : StreamState)
      → Carried p tables mapping written out s
      → let sent = send_chunk p tables backend c s in
        Carried p tables mapping (written ++ choice_text c.choice) (out ++ sent_text sent.0) sent.2
  unfolding send_chunk note_chunk
  send_chunk-Carried backend written out c s h = elim (Option-cases c.choice) [
    | inl q ↦ rw (q, send_chunk, append-nil written, append-nil out) h
    | inr (choice, q) ↦
        rw (q, send_chunk) (send_choice-Carried written out choice (note_chunk backend c s) h)
  ]

  stop_leaked :
      (c : Choice) (s : StreamState)
      → (send_choice p tables c s).1 ≡ true
      → (send_choice p tables c s).2.output_filter.leaked ≡ true
  unfolding send_choice
  stop_leaked c s h = elim (Bool-cases (screen_text p tables c.content s.output_filter).1.leaked) [
    | inl l ↦ rw (l, send_choice) l
    | inr l ↦ elim (Bool-cases c.finished) [
      | inl q ↦ absurd (ground (arith, rw (l, q, send_choice) at h))
      | inr q ↦ absurd (ground (arith, rw (l, q, send_choice) at h))
    ]
  ]

  stopped-leaked :
      (backend : String) (c : Chunk) (s : StreamState)
      → (send_chunk p tables backend c s).1 ≡ true
      → (send_chunk p tables backend c s).2.output_filter.leaked ≡ true
  unfolding send_chunk send_choice
  stopped-leaked backend c s h = elim (Option-cases c.choice) [
    | inl q ↦ absurd (ground (arith, rw (q, send_chunk) at h))
    | inr (choice, q) ↦
        rw (q, send_chunk) (stop_leaked choice (note_chunk backend c s) (rw (q, send_chunk) at h))
  ]

  pub send_chunks-Carried :
      (backend : String) (chunks : List Chunk) (written out : Text) (s : StreamState)
      → Carried p tables mapping written out s
      → let sent = send_chunks p tables backend chunks s in
        Carried p tables mapping (written ++ written_text chunks) (out ++ sent_text sent.0) sent.2
  unfolding send_chunks
  send_chunks-Carried backend [] written out s h = rw (append-nil written, append-nil out) h
  send_chunks-Carried backend (c ∷ chunks) written out s h =
      let one = send_chunk p tables backend c s in
      let rest = send_chunks p tables backend chunks one.2 in
      elim (Bool-cases one.1) [
        | inl q ↦ rw (q, send_chunks) (inl (stopped-leaked backend c s q))
        | inr q ↦
            rw
              (
                q,
                send_chunks,
                sent_text-append one.0 rest.0,
                sym (append_assoc out (sent_text one.0) (sent_text rest.0)),
                sym (append_assoc written (choice_text c.choice) (written_text chunks)),
              )
              (send_chunks-Carried backend chunks (written ++ choice_text c.choice)
                (out ++ sent_text one.0) one.2 (send_chunk-Carried backend written out c s h))
      ]
