-- ===== src/Router/Stream/Outcomes.antt =====
-- How a stream of gateway/policy/router.py ends, and what its end tells the breaker.
use mathlib.Core.List.{append-nil, append_assoc}
use llm_gateway_with_cost_co.Prelude.{
  arith, All, Bool-cases, List, inl, inr, leb, refl, some, sym, ℕ, ◌++◌, ◌+◌, ◌∙◌, ◌∷◌, ◌≡◌, ◌≤◌,
  [], Option, ap, get_or,
}
use llm_gateway_with_cost_co.Router.Stream.{
  open_stream, read_chunks, Opening, stream_failed, Streams, StreamEnd, StreamRun, opens,
  StreamOutcome, refuses, finished, Opened, exhausted, not_ranked, stream_timed_out, interrupted,
  no_stream, broken,
}
use llm_gateway_with_cost_co.Text.{Text}
use llm_gateway_with_cost_co.Router.{RouterConfig}
use llm_gateway_with_cost_co.Adapter.{Adapter}
use llm_gateway_with_cost_co.Breaker.{Breakers, record_success, record_failure}

-- The texts of chunks.
abbrev pub texts : List (Text × ℕ) → List Text
texts [] = []
texts ((chunk, d) ∷ chunks) = chunk ∷ texts chunks

-- What the breakers are told at each end.
abbrev pub IsReported : RouterConfig → Adapter → StreamOutcome → Breakers → Breakers → Type 0
IsReported c a finished s s' = s' ≡ record_success a.id s
IsReported c a stream_timed_out s s' = (t : ℕ) × (s' ≡ record_failure c.breaker t a.id s)
IsReported c a interrupted s s' = s' ≡ s
IsReported c a no_stream s s' = ⊥
IsReported c a (not_ranked e) s s' = ⊥

-- Once a stream is open: if it finishes, its backend's breaker is told of a success; if it times
-- out, of a failure; if the backend breaks it off, of nothing, so a half-open breaker stays so.
pub read_chunks_reports :
    (c : RouterConfig) (a : Adapter) (started : ℕ) (end : StreamEnd) (chunks : List (Text × ℕ))
    (run : StreamRun)
    → IsReported c a
        (read_chunks c a started end chunks run).0
        run.router.breakers
        (read_chunks c a started end chunks run).1.router.breakers
unfolding read_chunks stream_failed
read_chunks_reports c a started exhausted [] run = refl
read_chunks_reports c a started broken [] run = refl
read_chunks_reports c a started end ((chunk, d) ∷ chunks) run =
    elim (Bool-cases (leb (started + c.timeout_sec) (run.clock + d))) [
      | inl late ↦ rw (late, read_chunks) (run.clock + d, refl)
      | inr soon ↦
          rw (soon, read_chunks)
            (read_chunks_reports c a started end chunks
              (record run { clock = run.clock + d; sent = run.sent ++ chunk ∷ [] }))
    ]

-- A stream that finishes, after a first chunk within `timeout_sec` of the start, has passed on
-- exactly the backend's chunks, in order, after what was sent before, and within `timeout_sec` too.
pub read_chunks_complete :
    (c : RouterConfig) (a : Adapter) (started : ℕ) (end : StreamEnd) (chunks : List (Text × ℕ))
    (run : StreamRun)
    → run.clock ≤ started + c.timeout_sec
    → (read_chunks c a started end chunks run).0 ≡ finished
    → ((read_chunks c a started end chunks run).1.sent ≡ run.sent ++ texts chunks)
      × ((read_chunks c a started end chunks run).1.clock ≤ started + c.timeout_sec)
unfolding read_chunks
read_chunks_complete c a started exhausted [] run h f = (sym (append-nil run.sent), h)
read_chunks_complete c a started broken [] run h f = absurd (ground (arith, f))
read_chunks_complete c a started end ((chunk, d) ∷ chunks) run h f =
    elim (Bool-cases (leb (started + c.timeout_sec) (run.clock + d))) [
      | inl late ↦ absurd (ground (arith, rw (late, read_chunks) at f))
      | inr soon ↦
          let next : StreamRun = record run {
            clock = run.clock + d;
            sent = run.sent ++ chunk ∷ [];
          } in
          let ih =
            read_chunks_complete c a started end chunks next (ground (arith, soon))
              (rw (soon, read_chunks) at f) in
          rw (soon, read_chunks) (ih.0 ∙ append_assoc run.sent (chunk ∷ []) (texts chunks), ih.1)
    ]

abbrev pub IsOpening : RouterConfig → Opening → Type 0
IsOpening c (opens chunk d chunks end) = d ≤ c.timeout_sec
IsOpening c (refuses d) = ⊥

Opening-cases :
    {P : Type 0} (x : Opening)
    → ((chunk : Text) (d : ℕ) (chunks : List (Text × ℕ)) (end : StreamEnd)
        → x ≡ opens chunk d chunks end
        → P)
    → ((d : ℕ) → x ≡ refuses d → P)
    → P
Opening-cases (opens chunk d chunks end) f g = f chunk d chunks end refl
Opening-cases (refuses d) f g = g d refl

-- What was found behind a backend that does not open is found behind it too.
abbrev IsFirst : RouterConfig → Streams → List Adapter → Adapter → Type 0
IsFirst c streams ranked target =
    (before : List Adapter) × (after : List Adapter) × (ranked ≡ before ++ target ∷ after)
    × IsOpening c (streams target)
    × All (λ a. ¬ (IsOpening c (streams a))) before

skip-IsFirst :
    (c : RouterConfig) (streams : Streams) (a target : Adapter) (ranked : List Adapter)
    → ¬ (IsOpening c (streams a))
    → IsFirst c streams ranked target
    → IsFirst c streams (a ∷ ranked) target
skip-IsFirst c streams a target ranked closed_now (before, after, e, o, h) =
    (a ∷ before, after, ap (λ (xs : List Adapter). a ∷ xs) e, o, (closed_now, h))

-- A stream is served by the first ranked backend that sends a chunk within `timeout_sec`: it is in
-- the ranking, and none of those before it does.
pub open_stream_first :
    (c : RouterConfig) (streams : Streams) (ranked : List Adapter) (run : StreamRun) (o : Opened)
    → (open_stream c streams ranked run).0 ≡ some o
    → (before : List Adapter) × (after : List Adapter) × (ranked ≡ before ++ o.target ∷ after)
      × IsOpening c (streams o.target)
      × All (λ a. ¬ (IsOpening c (streams a))) before
unfolding open_stream
open_stream_first c streams [] run o h = absurd (ground (arith, h))
open_stream_first c streams (a ∷ ranked) run o h =
    Opening-cases (streams a)
      (λ chunk d chunks end q. elim (Bool-cases (leb d c.timeout_sec)) [
        | inl quick ↦
            let found : some (record { target = a; chunks = chunks; end = end }) ≡ some o =
              rw (q, quick, open_stream) at h in
            let mine : a ≡ o.target = ap (λ (x : Option Opened). (get_or x o).target) found in
            rw (sym mine) ([], ranked, refl, rw (q) (ground (arith, quick)), tt)
        | inr slow ↦
            skip-IsFirst c streams a o.target ranked (rw (q) (λ x. ground (arith, slow, x)))
              (open_stream_first c streams ranked _ o (rw (q, slow, open_stream) at h))
      ])
      (λ d q.
        skip-IsFirst c streams a o.target ranked (rw (q) (λ x. x))
          (open_stream_first c streams ranked _ o (rw (q, open_stream) at h)))
