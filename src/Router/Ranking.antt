-- ===== src/Router/Ranking.antt =====
-- `get_ranked_adapters` (gateway/policy/router.py): filter by health, capability, context window
-- and requested model, then rank by the strategy. `encode` counts tokens, and `is_complex` is
-- `_is_complex_request` of the messages.
pub mod Failing
pub mod Sound
pub mod Probe
use llm_gateway_with_cost_co.Prelude.{
  Bool, List, Option, String, false, if◌then◌else◌, leb, ltb, none, some, str_eq, true, ℕ, ◌&&◌,
  ◌+◌, ◌-◌, ◌==◌, ◌∷◌, ◌||◌, [], drop, get_or, length, take, ◌%◌, ◌++◌,
}
use llm_gateway_with_cost_co.Breaker.{BreakerConfig, Breakers, can_request}
use llm_gateway_with_cost_co.Text.{is_empty}
use llm_gateway_with_cost_co.Router.{
  Options, RouteError, context_length_exceeded, Routed, routed, raised, RouterConfig, Strategy,
  RouterState, no_available_backend, cost_first, cascade, latency_first, round_robin,
  weighted_round_robin, complexity, other,
}
use llm_gateway_with_cost_co.Adapter.{Encoder, Adapter, Message, count_prompt_tokens}
use llm_gateway_with_cost_co.Router.Order.{
  sort_by, cheapest_first_key, cascade_key, fastest_first_key, most_capable_first_key,
}

-- The loop over the breakers; every adapter is asked, in order.
unfoldable pub healthy_adapters :
    BreakerConfig → ℕ → List Adapter → Breakers → List Adapter × Breakers
healthy_adapters c now [] s = ([], s)
healthy_adapters c now (a ∷ adapters) s =
    let (allowed, s') = can_request c now a.id s in
    let (rest, s'') = healthy_adapters c now adapters s' in
    (if allowed then a ∷ rest else rest, s'')

abbrev pub member : String → List String → Bool
member x [] = false
member x (y ∷ ys) = str_eq x y || member x ys

-- `set.issubset`
abbrev pub is_subset : List String → List String → Bool
is_subset [] ys = true
is_subset (x ∷ xs) ys = member x ys && is_subset xs ys

pub keep {ℓ} : {A : Type ℓ} → (A → Bool) → List A → List A
keep p [] = []
keep p (x ∷ xs) = let rest = keep p xs in if p x then x ∷ rest else rest

-- The filter's result where it has one, else what it was given.
pub prefer {ℓ} : {A : Type ℓ} → (A → Bool) → List A → List A
unfolding keep
prefer p xs = let kept = keep p xs in if is_empty kept then xs else kept

pub required : Options → List String
required o =
    if o.json_object || o.json_mode
    then "json_mode" ∷ o.required_capabilities
    else o.required_capabilities

unfoldable pub by_capability : Options → List Adapter → List Adapter
unfolding required prefer
by_capability o candidates =
    let names = required o in
    if is_empty names then candidates else prefer (λ a. is_subset names a.capabilities) candidates

-- `(shortfall, needed, window)`
abbrev pub Miss : Type 0
Miss = record { shortfall : ℕ; needed : ℕ; window : ℕ }

closer : Miss → Option Miss → Option Miss
closer m none = some m
closer m (some best) = if ltb m.shortfall best.shortfall then some m else some best

needed : Encoder → List Message → ℕ → Adapter → ℕ
needed encode messages max_tokens a = count_prompt_tokens encode a messages + max_tokens

-- A window of 0 is unknown, and unconstrained.
pub fits : Encoder → List Message → ℕ → Adapter → Bool
unfolding needed
fits encode messages max_tokens a =
    a.context_length == 0 || leb (needed encode messages max_tokens a) a.context_length

miss_of : Encoder → List Message → ℕ → Adapter → Miss
unfolding needed
miss_of encode messages n a = record {
  shortfall = needed encode messages n a - a.context_length;
  needed = needed encode messages n a;
  window = a.context_length;
}

-- The loop of the context filter: what fits, and the closest miss so far.
fit_loop : Encoder → List Message → ℕ → List Adapter → Option Miss → List Adapter × Option Miss
unfolding fits closer miss_of
fit_loop encode messages n [] best = ([], best)
fit_loop encode messages n (a ∷ candidates) best =
    let fitting = fits encode messages n a in
    let (rest, miss) =
      fit_loop encode messages n candidates
        (if fitting then best else closer (miss_of encode messages n a) best) in
    (if fitting then a ∷ rest else rest, miss)

over_window : Option Miss → RouteError
over_window (some m) = context_length_exceeded m.shortfall m.needed m.window
over_window none = context_length_exceeded 0 0 0

-- No fallback: a request that fits no window is an error.
unfoldable pub by_window : Encoder → List Message → ℕ → List Adapter → Routed (List Adapter)
unfolding fit_loop over_window
by_window encode messages n candidates =
    if is_empty messages
    then routed candidates
    else let (fitting, miss) = fit_loop encode messages n candidates none in
      if is_empty fitting then raised (over_window miss) else routed fitting

-- `if requested_model:`; the empty text asks for none.
unfoldable pub by_model : Options → List Adapter → List Adapter
unfolding prefer
by_model o candidates = elim o.model [
  | none ↦ candidates
  | some m ↦ if str_eq m "" then candidates else prefer (λ a. str_eq a.model m) candidates
]

-- `candidates[idx:] + candidates[:idx]`, and the counter's step
rotate : List Adapter → RouterState → List Adapter × RouterState
rotate candidates s =
    let idx = s.rr_counter % length candidates in
    if ltb 1 (length candidates)
    then (drop idx candidates ++ take idx candidates, record s { rr_counter = s.rr_counter + 1 })
    else (candidates, s)

unfoldable pub rank_by :
    Strategy → RouterConfig → ℕ → Bool → List Adapter → RouterState → List Adapter × RouterState
unfolding rotate
rank_by cost_first c now is_complex candidates s = (sort_by cheapest_first_key candidates, s)
rank_by cascade c now is_complex candidates s = (sort_by (cascade_key c) candidates, s)
rank_by latency_first c now is_complex candidates s =
    (sort_by (fastest_first_key c now s) candidates, s)
rank_by round_robin c now is_complex candidates s = rotate candidates s
rank_by weighted_round_robin c now is_complex candidates s = rotate candidates s
rank_by complexity c now is_complex candidates s = (
  if is_complex
      then sort_by (most_capable_first_key c) candidates
      else sort_by cheapest_first_key candidates,
  s,
)
rank_by other c now is_complex candidates s = (candidates, s)

-- What is left to do once the breakers were asked.
unfoldable pub rank_healthy :
    Encoder
    → (List Message → Bool)
    → RouterConfig
    → ℕ
    → List Message
    → Options
    → List Adapter
    → RouterState
    → Routed (List Adapter) × RouterState
rank_healthy encode is_complex c now messages o candidates s =
    if is_empty candidates
    then (raised no_available_backend, s)
    else elim (by_window encode messages (get_or o.max_tokens 0) (by_capability o candidates)) [
      | raised e ↦ (raised e, s)
      | routed fitting ↦
          let (ranked, s') =
            rank_by c.strategy c now (is_complex messages) (by_model o fitting) s in
          (routed ranked, s')
    ]

unfoldable pub get_ranked_adapters :
    Encoder
    → (List Message → Bool)
    → RouterConfig
    → ℕ
    → List Message
    → Options
    → RouterState
    → Routed (List Adapter) × RouterState
get_ranked_adapters encode is_complex c now messages o s =
    let (candidates, breakers') = healthy_adapters c.breaker now c.adapters s.breakers in
    rank_healthy encode is_complex c now messages o candidates (record s { breakers = breakers' })
