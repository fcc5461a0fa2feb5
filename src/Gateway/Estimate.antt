-- ===== src/Gateway/Estimate.antt =====
-- The hold that `chat_completions` (gateway/main.py) places: its price, and what it covers.
use mathlib.Core.List.{Mem}
use mathlib.Core.Path.{subst}
use native.Mathlib.Nat.{add-le-add, le_refl, le_trans, mul-add, mul-le-mul}
use llm_gateway_with_cost_co.Prelude.{
  All, All-imp, Bool-cases, List, inl, inr, arith, get_or, ltb, refl, sym, ℕ, ◌*◌, ◌+◌, ◌∷◌, ◌≡◌,
  ◌≤◌, [],
}
use llm_gateway_with_cost_co.Adapter.{Adapter, Encoder, calculate_cost, count_prompt_tokens}
use llm_gateway_with_cost_co.Gateway.{ChatRequest, costliest, estimated_cost, unit_price}
use llm_gateway_with_cost_co.Router.Ranking.Sound.{All-Mem}

-- Of two backends, the second has the greater sum of prices, or the same.
abbrev pub NoDearer : Adapter → Adapter → Type 0
NoDearer d t =
    d.cost_per_1k_prompt + d.cost_per_1k_completion
    ≤ t.cost_per_1k_prompt + t.cost_per_1k_completion

-- The price of a request on a backend of the ranked list with the greatest sum of prices, for the
-- prompt as that backend counts it and for `max_tokens`, or 256 where the request sets none.
abbrev pub IsEstimate : Encoder → ChatRequest → List Adapter → ℕ → Type 0
IsEstimate encode req [] n = n ≡ 0
IsEstimate encode req (a ∷ ranked) n =
    (t : Adapter) × Mem t (a ∷ ranked)
    × All (λ d. NoDearer d t) (a ∷ ranked)
    × (n
        ≡ count_prompt_tokens encode t req.messages * t.cost_per_1k_prompt
          + get_or req.options.max_tokens 256 * t.cost_per_1k_completion)

All-costliest {κ} :
    (P : Adapter → Type κ) (best : Adapter) (ranked : List Adapter)
    → All P (best ∷ ranked)
    → P (costliest best ranked)
unfolding costliest
All-costliest P best [] h = h.0
All-costliest P best (a ∷ ranked) h = elim (Bool-cases (ltb (unit_price best) (unit_price a))) [
  | inl dearer ↦ rw dearer (All-costliest P a ranked h.1)
  | inr kept ↦ rw kept (All-costliest P best ranked (h.0, h.1.1))
]

costliest-NoDearer :
    (best : Adapter) (ranked : List Adapter)
    → All (λ d. NoDearer d (costliest best ranked)) (best ∷ ranked)
unfolding costliest
costliest-NoDearer best [] = (omega arith, tt)
costliest-NoDearer best (a ∷ ranked) =
    let below : Adapter → Type 0 = λ x. All (λ d. NoDearer d x) (best ∷ a ∷ ranked) in
    elim (Bool-cases (ltb (unit_price best) (unit_price a))) [
      | inl dearer ↦
          let rest = costliest-NoDearer a ranked in
          let step : costliest a ranked ≡ costliest best (a ∷ ranked) = rw dearer refl in
          subst below step (ground (arith, dearer, rest.0), rest)
      | inr kept ↦
          let rest = costliest-NoDearer best ranked in
          let step : costliest best ranked ≡ costliest best (a ∷ ranked) = rw kept refl in
          subst below step (rest.0, (ground (arith, kept, rest.0), rest.1))
    ]

pub estimated_cost-IsEstimate :
    (encode : Encoder) (req : ChatRequest) (ranked : List Adapter)
    → IsEstimate encode req ranked (estimated_cost encode req ranked)
unfolding estimated_cost calculate_cost
estimated_cost-IsEstimate encode req [] = refl
estimated_cost-IsEstimate encode req (a ∷ ranked) = (
  costliest a ranked,
  All-costliest (λ t. Mem t (a ∷ ranked)) a ranked (All-Mem (a ∷ ranked)),
  costliest-NoDearer a ranked,
  refl,
)

-- With at most `n` tokens on either side, a smaller sum of prices costs no more.
covered : {n p q : ℕ} (i j k l : ℕ) → p ≤ n → q ≤ n → i + j ≤ k + l → p * i + q * j ≤ n * k + n * l
covered {n} i j k l hp hq h = rw (sym (mul-add n k l)) (
    le_trans (add-le-add (mul-le-mul hp (le_refl i)) (mul-le-mul hq (le_refl j)))
      (rw (sym (mul-add n i j)) (mul-le-mul (le_refl n) h)))

-- The estimate covers the answer of every ranked backend, if the tokens of its prompt and those of
-- its completion are each at most what every ranked backend counts for the prompt, and at most
-- `max_tokens`, or 256 where the request sets none.
pub estimate_covers :
    (encode : Encoder) (req : ChatRequest) (ranked : List Adapter)
    (tokens prompt_tokens completion_tokens : ℕ)
    → All (λ d. tokens ≤ count_prompt_tokens encode d req.messages) ranked
    → tokens ≤ get_or req.options.max_tokens 256
    → prompt_tokens ≤ tokens
    → completion_tokens ≤ tokens
    → All
        (λ t. calculate_cost t prompt_tokens completion_tokens ≤ estimated_cost encode req ranked)
        ranked
unfolding estimated_cost calculate_cost
estimate_covers encode req [] n p q counted ceiling hp hq = tt
estimate_covers encode req (a ∷ ranked) n p q counted ceiling hp hq =
    let k = costliest a ranked in
    let held =
      add-le-add (mul-le-mul (All-costliest _ a ranked counted) (le_refl k.cost_per_1k_prompt))
        (mul-le-mul ceiling (le_refl k.cost_per_1k_completion)) in
    All-imp _ _ (a ∷ ranked)
      (λ t cheaper.
        le_trans
          (covered t.cost_per_1k_prompt t.cost_per_1k_completion k.cost_per_1k_prompt
            k.cost_per_1k_completion hp hq cheaper)
          held)
      (costliest-NoDearer a ranked)
