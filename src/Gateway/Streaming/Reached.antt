-- ===== src/Gateway/Streaming/Reached.antt =====
-- What the caller of a stream gets of the text that the model writes.
use mathlib.Core.List.{append-nil}
use llm_gateway_with_cost_co.Prelude.{
  arith, Bool, Bool-cases, List, String, ap, false, if◌then◌else◌, inl, inr, refl, sym, true, ℕ,
  ◌++◌, ◌∙◌, ◌∷◌, ◌≡◌, ◌⊎◌, [],
}
use llm_gateway_with_cost_co.Gateway.Streaming.Texts.{
  Carried, Emptied, sent_text, written_text, sent_text-append, sent_text-send_some,
  release_tails-Emptied, send_chunks-Carried,
}
use llm_gateway_with_cost_co.Guardrails.{GuardrailsPipeline, OutputFilter}
use llm_gateway_with_cost_co.Gateway.Streaming.{
  stream_generator, settle_stream, StreamEvent, send_tail, new_stream, StreamState, done, Chunk,
  release_tails, send_chunks, send_some, ran_out,
}
use llm_gateway_with_cost_co.Pii.{CharTables}
use llm_gateway_with_cost_co.Adapter.{Encoder, Adapter}
use llm_gateway_with_cost_co.Text.{Text, flat}
use llm_gateway_with_cost_co.Gateway.{ChatRequest}
use llm_gateway_with_cost_co.Guardrails.Pieces.{cleaned}
use llm_gateway_with_cost_co.Pii.Restorer.{VaultRestorer}
use llm_gateway_with_cost_co.Pii.Restorer.Tail.{restored}

if_true {ℓ} : {A : Type ℓ} {b : Bool} (x y : A) → b ≡ true → (if b then x else y) ≡ x
if_true x y h = rw h refl

if_false {ℓ} : {A : Type ℓ} {b : Bool} (x y : A) → b ≡ false → (if b then x else y) ≡ y
if_false x y h = rw h refl

module _ (p : GuardrailsPipeline) (tables : CharTables) (mapping : List (Text × Text)) where
  new_stream-Carried : Carried p tables mapping [] [] (new_stream mapping)
  new_stream-Carried = inr (([], refl, refl), ([], refl, refl, refl, λ e. refl))

  -- Everything that was written reached the caller: screened in pieces, and what the screening let
  -- through restored in pieces.
  abbrev pub Reaches : Text → List StreamEvent → Type 0
  Reaches written events =
      (screened : List Text) × (pieces : List Text) × (flat screened ≡ written)
      × (flat pieces ≡ cleaned p screened)
      × (sent_text events ≡ restored tables mapping pieces)

  Emptied-Reaches :
      (written out : Text) (events : List StreamEvent) (f : OutputFilter) (r : VaultRestorer)
      → Emptied p tables mapping written out f r
      → sent_text events ≡ out
      → Reaches written events
  Emptied-Reaches written out events f r
        ((screened, whole, clean), (pieces, all, sent, same, none_masked), dry, dry') e =
      (
        screened,
        pieces,
        sym (append-nil (flat screened)) ∙ ap (λ (u : Text). flat screened ++ u) (sym dry) ∙ whole,
        sym (append-nil (flat pieces))
            ∙ ap (λ (u : Text). flat pieces ++ u) (sym dry')
            ∙ all
            ∙ clean,
        e ∙ sent,
      )

  send_tail_stopped :
      (s : StreamState) → s.output_filter.leaked ≡ true → send_tail p tables s ≡ ([], s)
  unfolding send_tail
  send_tail_stopped s l = if_true _ _ l

  send_tail_live :
      (s : StreamState)
      → s.output_filter.leaked ≡ false
      → let tails = release_tails p tables [] s.output_filter s.vault_restorer in
        send_tail p tables s ≡ (
          send_some tails.0 s.last_others,
          record s { output_filter = tails.1; vault_restorer = tails.2 },
        )
  unfolding send_tail
  send_tail_live s l = if_false _ _ l

  tail-Reaches :
      (written : Text) (sent : List StreamEvent) (s : StreamState)
      → Carried p tables mapping written (sent_text sent) s
      → let tail = send_tail p tables s in
        ((tail.1).output_filter.leaked ≡ true) ⊎ Reaches written (sent ++ (tail.0 ++ done ∷ []))
  tail-Reaches written sent s h =
      let f = s.output_filter in
      let tails = release_tails p tables [] f s.vault_restorer in
      elim (Bool-cases f.leaked) [
        | inl l ↦ rw (send_tail_stopped s l) (inl l)
        | inr l ↦ elim h [
          | inl was ↦ absurd (ground (arith, l, was))
          | inr (screens, restores) ↦
              elim (release_tails-Emptied p tables mapping written (sent_text sent) [] f.released f
                s.vault_restorer screens (sym (append-nil f.released)) restores) [
                  | inl now ↦ rw (send_tail_live s l) (inl now)
                  | inr emptied ↦
                      let events = sent ++ (send_some tails.0 s.last_others ++ done ∷ []) in
                      let text : sent_text events ≡ sent_text sent ++ tails.0 =
                        sent_text-append sent (send_some tails.0 s.last_others ++ done ∷ [])
                        ∙ ap (λ (u : Text). sent_text sent ++ u)
                            (sent_text-append (send_some tails.0 s.last_others) (done ∷ [])
                              ∙ append-nil (sent_text (send_some tails.0 s.last_others))
                              ∙ sent_text-send_some tails.0 s.last_others) in
                      rw (send_tail_live s l) (
                        inr (
                          Emptied-Reaches written (sent_text sent ++ tails.0) events tails.1 tails.2
                            emptied text))
                ]
        ]
      ]

-- Of a stream that the backend brings to its end, either the filter has found a leak when the
-- generator settles, or everything that the model wrote in the first choice of its chunks has reached
-- the caller: those texts, in order and each code point once, were screened in pieces, and what the
-- screening let through, again in order and each code point once, was restored in pieces and sent.
pub stream_generator-Reaches :
    (p : GuardrailsPipeline) (tables : CharTables) (encode : Encoder) (adapters : List Adapter)
    (req : ChatRequest) (estimated latency : ℕ) (vault_mapping : List (Text × Text))
    (backend : String) (chunks : List Chunk)
    → let looped = send_chunks p tables backend chunks (new_stream vault_mapping) in
      let generated =
        stream_generator p tables encode adapters req estimated latency vault_mapping backend chunks
          ran_out in
      ((send_tail p tables looped.2).1.output_filter.leaked ≡ true)
      ⊎ Reaches p tables vault_mapping (written_text chunks) generated.0
unfolding stream_generator settle_stream
stream_generator-Reaches p tables encode adapters req estimated latency vault_mapping backend
      chunks =
    let looped = send_chunks p tables backend chunks (new_stream vault_mapping) in
    let carried =
      send_chunks-Carried p tables vault_mapping backend chunks [] [] (new_stream vault_mapping)
        (new_stream-Carried p tables vault_mapping) in
    let reached =
      tail-Reaches p tables vault_mapping (written_text chunks) looped.0 looped.2 carried in
    elim (Bool-cases looped.1) [ inl q ↦ rw q reached | inr q ↦ rw q reached ]
