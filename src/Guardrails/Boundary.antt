-- ===== src/Guardrails/Boundary.antt =====
-- How far a stream may be sent: what `emit_boundary` lets go of and where it cuts.
use mathlib.Core.List.{Mem, mem-cons_self, mem-cons_of_mem}
use llm_gateway_with_cost_co.Prelude.{
  arith, List, Option, Option-cases, drop, inl, inr, length, none, some, suc, zero, ℕ, ◌+◌, ◌<◌,
  ◌∷◌, ◌≡◌, ◌≤◌, [], Bool-cases, ltb, All, refl, true, ◌⊎◌, leb, ◌-◌, sym, ◌∙◌,
}
use llm_gateway_with_cost_co.Guardrails.{
  SecretPattern, finished_secret, ends_within, hold_back, emit_boundary, starters,
  GuardrailsPipeline, secret_starters,
}
use llm_gateway_with_cost_co.Regex.{starts_from, Regex, match_at, match_end, left, takes}
use llm_gateway_with_cost_co.Text.{Text}

-- The numbers go up, from `n` on.
abbrev Rising : ℕ → List ℕ → Type 0
Rising n [] = Unit
Rising n (s ∷ ss) = (n ≤ s) × Rising (suc s) ss

Rising-earlier : (m n : ℕ) (ss : List ℕ) → m ≤ n → Rising n ss → Rising m ss
Rising-earlier m n [] h r = tt
Rising-earlier m n (s ∷ ss) h r = (ground (arith, h, r.0), r.1)

starts_from-Rising :
    (r : Regex) (position : ℕ) (b : Option ℕ) (skip : ℕ) (t : Text)
    → Rising position (starts_from r position b skip t)
unfolding starts_from
starts_from-Rising r position b skip [] = tt
starts_from-Rising r position b zero (c ∷ t) =
    let found = match_at r b (c ∷ t) in
    let rest = starts_from-Rising r (suc position) (some c) (left found) t in
    elim (Bool-cases (takes found)) [
      | inl h ↦ rw h (ground arith, rest)
      | inr h ↦ rw h (
          Rising-earlier position (suc position)
            (starts_from r (suc position) (some c) (left found) t) (ground arith) rest)
    ]
starts_from-Rising r position b (suc k) (c ∷ t) =
    Rising-earlier position (suc position) (starts_from r (suc position) (some c) k t)
      (ground arith) (starts_from-Rising r (suc position) (some c) k t)

-- One of the patterns matches at the front and ends at `e`, with text after it.
abbrev pub EndsAt : List SecretPattern → Text → ℕ → Type 0
EndsAt ps tail e =
    (s : SecretPattern) × Mem s ps × (match_end s.pattern tail ≡ some e) × (e < length tail)

later :
    (s : SecretPattern) (ss : List SecretPattern) (tail : Text) (e : ℕ)
    → EndsAt ss tail e
    → EndsAt (s ∷ ss) tail e
later s ss tail e h = (h.0, mem-cons_of_mem s h.1, h.2, h.3)

finished_secret-EndsAt :
    (ps : List SecretPattern) (tail : Text) (e : ℕ)
    → finished_secret ps tail ≡ some e
    → EndsAt ps tail e
unfolding finished_secret
finished_secret-EndsAt [] tail e h = absurd (ground (arith, h))
finished_secret-EndsAt (s ∷ ss) tail e h = elim (Option-cases (match_end s.pattern tail)) [
  | inl q ↦ later s ss tail e (finished_secret-EndsAt ss tail e (rw (q, finished_secret) at h))
  | inr (k, q) ↦ elim (Bool-cases (ltb k (length tail))) [
    | inl l ↦ (s, mem-cons_self, ground (arith, h, q, l), ground (arith, h, q, l))
    | inr l ↦ later s ss tail e (finished_secret-EndsAt ss tail e (rw (q, l, finished_secret) at h))
  ]
]

-- A secret that begins at `start` has matched in full, with text after it, and before `limit`.
abbrev pub Settled : List SecretPattern → Text → ℕ → ℕ → Type 0
Settled ps text limit start = (e : ℕ) × EndsAt ps (drop start text) e × (start + e ≤ limit)

hold_back_le :
    (ps : List SecretPattern) (text : Text) (limit : ℕ) (ss : List ℕ)
    → hold_back ps text limit ss ≤ limit
unfolding hold_back
hold_back_le ps text limit [] = ground arith
hold_back_le ps text limit (start ∷ ss) =
    elim (Bool-cases (ends_within (finished_secret ps (drop start text)) start limit)) [
      | inl h ↦ rw h ground (arith, hold_back_le ps text limit ss)
      | inr h ↦ rw h ground (arith, hold_back_le ps text start ss)
    ]

ends_within-Settled :
    (ps : List SecretPattern) (text : Text) (start limit : ℕ)
    → ends_within (finished_secret ps (drop start text)) start limit ≡ true
    → Settled ps text limit start
ends_within-Settled ps text start limit h =
    elim (Option-cases (finished_secret ps (drop start text))) [
      | inl q ↦ absurd (ground (arith, rw q at h))
      | inr (e, q) ↦ (e, finished_secret-EndsAt ps (drop start text) e q, ground (arith, rw q at h))
    ]

-- The loop stops at the first starter that is not settled.
stays :
    (ps : List SecretPattern) (text : Text) (limit : ℕ) (ss : List ℕ)
    → Rising limit ss
    → hold_back ps text limit ss ≡ limit
unfolding hold_back
stays ps text limit [] r = refl
stays ps text limit (start ∷ ss) r = ground (arith, r.0)

-- What is so of the boundary `b` that the loop comes to from `limit`
abbrev Held : List SecretPattern → Text → ℕ → List ℕ → ℕ → Type 0
Held ps text limit ss b = All (λ s. s < b → Settled ps text limit s) ss × ((b ≡ limit) ⊎ Mem b ss)

beyond :
    (ps : List SecretPattern) (text : Text) (limit b n : ℕ) (ss : List ℕ)
    → b ≤ n
    → Rising n ss
    → All (λ s. s < b → Settled ps text limit s) ss
beyond ps text limit b n [] h r = tt
beyond ps text limit b n (s ∷ ss) h r = (
  λ k. absurd (ground (arith, h, r.0, k)),
  beyond ps text limit b (suc s) ss (ground (arith, h, r.0)) r.1,
)

Held-later :
    (ps : List SecretPattern) (text : Text) (limit b s : ℕ) (ss : List ℕ)
    → Settled ps text limit s
    → Held ps text limit ss b
    → Held ps text limit (s ∷ ss) b
Held-later ps text limit b s ss d (h, inl e) = ((λ k. d, h), inl e)
Held-later ps text limit b s ss d (h, inr m) = ((λ k. d, h), inr (mem-cons_of_mem s m))

hold_back-Held :
    (ps : List SecretPattern) (text : Text) (n limit b : ℕ) (ss : List ℕ)
    → Rising n ss
    → hold_back ps text limit ss ≡ b
    → Held ps text limit ss b
unfolding hold_back
hold_back-Held ps text n limit b [] r e = (tt, inl (sym e ∙ stays ps text limit [] tt))
hold_back-Held ps text n limit b (s ∷ ss) r e = elim (Bool-cases (leb limit s)) [
  | inl q ↦
      let same : limit ≡ b = rw (q, hold_back) at e in
      (
        beyond ps text limit b s (s ∷ ss) (ground (arith, same, q)) (ground arith, r.1),
        inl (sym same),
      )
  | inr q ↦ elim (Bool-cases (ends_within (finished_secret ps (drop s text)) s limit)) [
    | inl h ↦
        let goes_on : hold_back ps text limit ss ≡ b = rw (q, h, hold_back) at e in
        Held-later ps text limit b s ss (ends_within-Settled ps text s limit h)
          (hold_back-Held ps text (suc s) limit b ss r.1 goes_on)
    | inr h ↦
        let goes_on : hold_back ps text s ss ≡ b = rw (q, h, hold_back) at e in
        let same : s ≡ b =
          sym (stays ps text s ss (Rising-earlier s (suc s) ss (ground arith) r.1)) ∙ goes_on in
        (
          (
            λ k. absurd (ground (arith, k, same)),
            beyond ps text limit b (suc s) ss (ground (arith, same)) r.1,
          ),
          inr (rw (sym same) mem-cons_self),
        )
  ]
]

-- Of a text that is pending, no more is sent than all but its last 6 code points. Every starter
-- that the guardrail finds before the boundary belongs to a secret that has matched in full, with
-- text after it, and that ends before those 6 code points. And the boundary is either those 6 code
-- points or the place of a starter.
pub emit_boundary_settles :
    (p : GuardrailsPipeline) (text : Text)
    → (emit_boundary p text ≤ length text - 6)
      × All
          (λ s.
            s < emit_boundary p text → Settled p.output_secret_patterns text (length text - 6) s)
          (starters text)
      × ((emit_boundary p text ≡ length text - 6) ⊎ Mem (emit_boundary p text) (starters text))
unfolding emit_boundary starters
emit_boundary_settles p text =
    let secrets = p.output_secret_patterns in
    let window = length text - 512 in
    let limit = length text - 6 in
    let held =
      hold_back-Held secrets text window limit (emit_boundary p text) (starters text)
        (starts_from-Rising secret_starters window none 0 (drop window text)) refl in
    (hold_back_le secrets text limit (starters text), held.0, held.1)
