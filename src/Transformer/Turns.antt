-- ===== src/Transformer/Turns.antt =====
-- The conversation that Anthropic gets: roles alternate and nothing that was said is lost.
use mathlib.Core.List.{append_assoc, append-nil}
use llm_gateway_with_cost_co.Prelude.{
  arith, Bool-cases, List, String, ap, eq_iff, if◌then◌else◌, inl, inr, map, refl, str_eq, ◌++◌,
  ◌∙◌, ◌∷◌, ◌≡◌, ◌≢◌, [], Option, false, none, pos, some, ℤ, ◌&&◌, ◌≤ℤ◌, List-cases, true,
}
use llm_gateway_with_cost_co.Text.{join, Text, is_empty, codes}
use llm_gateway_with_cost_co.Adapter.{Message}
use llm_gateway_with_cost_co.Transformer.{
  add_turn, is_turn, blank_line, clamp, ArgumentValue, add_turns, clamped, openai_to_anthropic,
  text_value, Arguments, int_value, thousandths, float_value, texts_value, none_value, other_value,
}
use llm_gateway_with_cost_co.Table.{lookup}

-- No message has the role of the one before it.
abbrev pub Follows : String → List Message → Type 0
Follows role [] = Unit
Follows role (m ∷ ms) = (role ≢ m.role) × Follows m.role ms

abbrev pub Alternates : List Message → Type 0
Alternates [] = Unit
Alternates (m ∷ ms) = Follows m.role ms

add_turn-Follows :
    (role : String) (x : Message) (xs : List Message) (m : Message)
    → Follows role (x ∷ xs)
    → Follows role (add_turn (x ∷ xs) m)
unfolding add_turn
add_turn-Follows role x [] m h = elim (Bool-cases (str_eq x.role m.role)) [
  | inl q ↦ rw (q, add_turn) (h.0, tt)
  | inr q ↦ rw (q, add_turn) (h.0, (ground (arith, q, eq_iff x.role m.role), tt))
]
add_turn-Follows role x (y ∷ ys) m h = (h.0, add_turn-Follows x.role y ys m h.1)

add_turn-Alternates : (xs : List Message) (m : Message) → Alternates xs → Alternates (add_turn xs m)
unfolding add_turn
add_turn-Alternates [] m h = tt
add_turn-Alternates (x ∷ []) m h = elim (Bool-cases (str_eq x.role m.role)) [
  | inl q ↦ rw (q, add_turn) tt
  | inr q ↦ rw (q, add_turn) (ground (arith, q, eq_iff x.role m.role), tt)
]
add_turn-Alternates (x ∷ y ∷ ys) m h = add_turn-Follows x.role y ys m h

abbrev pub contents_of : List Message → List Text
contents_of ms = map (λ m. m.content) ms

-- What was said by the user or the assistant
abbrev pub turns_of : List Message → List Message
turns_of [] = []
turns_of (m ∷ ms) = let rest = turns_of ms in if is_turn m then m ∷ rest else rest

join-cons :
    (sep t u : Text) (us : List Text) → join sep (t ∷ u ∷ us) ≡ t ++ (sep ++ join sep (u ∷ us))
unfolding join
join-cons sep t u us = refl

merged :
    (sep t u : Text) (us : List Text) → join sep ((t ++ (sep ++ u)) ∷ us) ≡ join sep (t ∷ u ∷ us)
unfolding join
merged sep t u [] = refl
merged sep t u (v ∷ us) =
    let rest = sep ++ join sep (v ∷ us) in
    append_assoc t (sep ++ u) rest ∙ ap (λ (w : Text). t ++ w) (append_assoc sep u rest)

join_under :
    (sep t v : Text) (us vs : List Text)
    → is_empty us ≡ false
    → join sep us ≡ join sep (v ∷ vs)
    → join sep (t ∷ us) ≡ join sep (t ∷ v ∷ vs)
unfolding join
join_under sep t v [] vs h e = absurd (ground (arith, h))
join_under sep t v (u ∷ us) vs h e = ap (λ (w : Text). t ++ (sep ++ w)) e

add_turn_some :
    (xs : List Message) (m : Message) (cs : List Text)
    → is_empty (contents_of (add_turn xs m) ++ cs) ≡ false
unfolding add_turn
add_turn_some [] m cs = refl
add_turn_some (x ∷ []) m cs = elim (Bool-cases (str_eq x.role m.role)) [
  | inl q ↦ rw (q, add_turn) refl
  | inr q ↦ rw (q, add_turn) refl
]
add_turn_some (x ∷ y ∷ ys) m cs = refl

join-add_turn :
    (xs : List Message) (m : Message) (cs : List Text)
    → join blank_line (contents_of (add_turn xs m) ++ cs)
      ≡ join blank_line (contents_of xs ++ m.content ∷ cs)
unfolding add_turn
join-add_turn [] m cs = refl
join-add_turn (x ∷ []) m cs = elim (Bool-cases (str_eq x.role m.role)) [
  | inl q ↦ rw (q, add_turn) (merged blank_line x.content m.content cs)
  | inr q ↦ rw (q, add_turn) refl
]
join-add_turn (x ∷ y ∷ ys) m cs =
    join_under blank_line x.content y.content (contents_of (add_turn (y ∷ ys) m) ++ cs)
      (contents_of ys ++ m.content ∷ cs) (add_turn_some (y ∷ ys) m cs) (join-add_turn (y ∷ ys) m cs)

join-add_turns :
    (xs ms : List Message)
    → join blank_line (contents_of (add_turns xs ms))
      ≡ join blank_line (contents_of xs ++ contents_of (turns_of ms))
unfolding add_turns
join-add_turns xs [] = rw (append-nil (contents_of xs)) refl
join-add_turns xs (m ∷ ms) = elim (Bool-cases (is_turn m)) [
  | inl q ↦
      rw (q, add_turns)
        (join-add_turns (add_turn xs m) ms ∙ join-add_turn xs m (contents_of (turns_of ms)))
  | inr q ↦ rw (q, add_turns) (join-add_turns xs ms)
]

add_turns-Alternates : (xs ms : List Message) → Alternates xs → Alternates (add_turns xs ms)
unfolding add_turns
add_turns-Alternates xs [] h = h
add_turns-Alternates xs (m ∷ ms) h = elim (Bool-cases (is_turn m)) [
  | inl q ↦ rw (q, add_turns) (add_turns-Alternates (add_turn xs m) ms (add_turn-Alternates xs m h))
  | inr q ↦ rw (q, add_turns) (add_turns-Alternates xs ms h)
]

add_turn-filled : (xs : List Message) (m : Message) → is_empty (add_turn xs m) ≡ false
unfolding add_turn
add_turn-filled [] m = refl
add_turn-filled (x ∷ []) m = elim (Bool-cases (str_eq x.role m.role)) [
  | inl q ↦ rw (q, add_turn) refl
  | inr q ↦ rw (q, add_turn) refl
]
add_turn-filled (x ∷ y ∷ ys) m = refl

add_turns_some :
    (xs ms : List Message) → is_empty (add_turns xs ms) ≡ is_empty xs && is_empty (turns_of ms)
unfolding add_turns
add_turns_some xs [] = ground arith
add_turns_some xs (m ∷ ms) = elim (Bool-cases (is_turn m)) [
  | inl q ↦
      rw (q, add_turns) (ground (arith, add_turns_some (add_turn xs m) ms, add_turn-filled xs m))
  | inr q ↦ rw (q, add_turns) (add_turns_some xs ms)
]

clamp_bounds : (x : ℤ) → (pos 0 ≤ℤ clamp x) × (clamp x ≤ℤ pos 1000)
clamp_bounds x = (ground arith, ground arith)

abbrev pub Within : Option ℤ → Type 0
Within none = Unit
Within (some x) = (pos 0 ≤ℤ x) × (x ≤ℤ pos 1000)

clamped-Within : (o : Option ArgumentValue) → Within (clamped o)
clamped-Within none = tt
clamped-Within (some none_value) = tt
clamped-Within (some (text_value t)) = tt
clamped-Within (some (int_value n)) = clamp_bounds (thousandths n)
clamped-Within (some (float_value x)) = clamp_bounds x
clamped-Within (some (texts_value ts)) = tt
clamped-Within (some other_value) = tt

-- Whatever the messages and the arguments, the payload has a message, no two messages in a row have
-- the same role, and the messages' texts, joined by blank lines, are the texts of the user's and the
-- assistant's messages joined so, in their order, or a dot where there are none. A temperature and a
-- `top_p` that are passed on lie between 0 and 1.
pub openai_to_anthropic_turns :
    (messages : List Message) (kwargs : Arguments)
    → let payload = openai_to_anthropic messages kwargs in
      (is_empty payload.messages ≡ false)
      × Alternates payload.messages
      × (join blank_line (contents_of payload.messages) ≡ (
          if is_empty (turns_of messages)
          then codes "."
          else join blank_line (contents_of (turns_of messages))))
      × Within payload.temperature
      × Within payload.top_p
unfolding openai_to_anthropic join
openai_to_anthropic_turns messages kwargs =
    let warm = clamped-Within (lookup "temperature" kwargs) in
    let top = clamped-Within (lookup "top_p" kwargs) in
    elim (List-cases (add_turns [] messages)) [
      | inl q ↦
          let nothing : is_empty (turns_of messages) ≡ true =
            ground (arith, rw q at (add_turns_some [] messages)) in
          rw (q, nothing) (refl, tt, refl, warm, top)
      | inr (m, ms, q) ↦
          let something : is_empty (turns_of messages) ≡ false =
            ground (arith, rw q at (add_turns_some [] messages)) in
          rw (q, something)
            (
              refl,
              rw q at (add_turns-Alternates [] messages tt),
              rw q at (join-add_turns [] messages),
              warm,
              top,
            )
    ]
