-- ===== src/Guardrails/Json.antt =====
-- The JSON mode of gateway/policy/guardrails.py: the repair of a reply.
-- `loads` is whether `json.loads` reads a text.
use llm_gateway_with_cost_co.Prelude.{
  Bool, Bool-cases, List, Option, false, if◌then◌else◌, inl, inr, none, refl, some, true, ◌∷◌, ◌≡◌,
  ◌⊎◌, ◌||◌, [],
}
use llm_gateway_with_cost_co.Regex.{
  Place, Regex, any_case, at, ends, in_order, literal, one, optional, star,
}
use llm_gateway_with_cost_co.Text.{Text, codes, is_empty, is_space, same_text, strip}

abbrev pub newline : Regex
newline = optional (one (λ c. same_text (c ∷ []) (codes "\n")))

-- The fence before the group, and the one behind it
unfoldable pub opening : Regex
opening = in_order (
    literal (codes "```") ∷ optional (any_case (codes "json")) ∷ star (one is_space) ∷ newline ∷ [])

unfoldable pub closing : Regex
closing = in_order (newline ∷ star (one is_space) ∷ literal (codes "```") ∷ [])

abbrev pub some_at_end : List Place → Bool
some_at_end [] = false
some_at_end (s ∷ ss) = is_empty s.rest || some_at_end ss

-- The group `(.*?)`: the shortest text behind which the fence closes at the end. A text without
-- white space at its end has one end for `$`.
unfoldable pub shortest : Text → Option Text
shortest [] = if some_at_end (ends closing (at none [])) then some [] else none
shortest (c ∷ t) =
    let longer = shortest t in
    if some_at_end (ends closing (at none (c ∷ t)))
    then some []
    else elim longer [ none ↦ none | some inner ↦ some (c ∷ inner) ]

-- Of the ways in which the fence can open, the first that works out
unfoldable pub first_group : List Place → Option Text
first_group [] = none
first_group (s ∷ ss) =
    let others = first_group ss in
    elim (shortest s.rest) [ none ↦ others | some inner ↦ some inner ]

unfoldable pub fenced : Text → Option Text
fenced t = first_group (ends opening (at none t))

module _ (loads : Text → Bool) where
  unfoldable pub unwrapped : Text → Option Text → Text × Bool
  unwrapped t none = (t, false)
  unwrapped t (some group) =
      let inner = strip group in if loads inner then (inner, true) else (t, false)

  unfoldable pub repair_json : Text → Text × Bool
  repair_json [] = ([], false)
  repair_json (c ∷ t) =
      let stripped = strip (c ∷ t) in
      if loads stripped then (stripped, true) else unwrapped (c ∷ t) (fenced stripped)

  unwrapped_lem :
      (t : Text) (group : Option Text)
      → let (u, valid) = unwrapped t group in
        ((valid ≡ true) × (loads u ≡ true)) ⊎ ((valid ≡ false) × (u ≡ t))
  unfolding unwrapped
  unwrapped_lem t none = inr (refl, refl)
  unwrapped_lem t (some group) = elim (Bool-cases (loads (strip group))) [
    | inl reads ↦ rw reads (inl (refl, reads))
    | inr fails ↦ rw fails (inr (refl, refl))
  ]

  -- A reply that is called valid is read by `json.loads`, and every other one is left as it came.
  pub repair_json_lem :
      (t : Text)
      → let (u, valid) = repair_json t in
        ((valid ≡ true) × (loads u ≡ true)) ⊎ ((valid ≡ false) × (u ≡ t))
  unfolding repair_json
  repair_json_lem [] = inr (refl, refl)
  repair_json_lem (c ∷ t) = elim (Bool-cases (loads (strip (c ∷ t)))) [
    | inl reads ↦ rw reads (inl (refl, reads))
    | inr fails ↦ rw fails (unwrapped_lem (c ∷ t) (fenced (strip (c ∷ t))))
  ]
