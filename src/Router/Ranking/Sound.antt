-- ===== src/Router/Ranking/Sound.antt =====
-- What the ranked list of `get_ranked_adapters` (gateway/policy/router.py) holds.
use mathlib.Core.List.{Mem, mem-cons_self, mem-cons_of_mem}
use llm_gateway_with_cost_co.Prelude.{
  All, Bool, Bool-cases, List, Option, Option-cases, arith, drop, false, inl, inr, length, ltb,
  str_eq, suc, take, true, zero, ℕ, ◌%◌, ◌++◌, ◌∷◌, ◌≡◌, [], All-imp, String, get_or, none, sym,
  ◌∙◌, ◌⊎◌, ◌+◌, ◌≤◌,
}
use llm_gateway_with_cost_co.Router.Ranking.{
  prefer, keep, rank_by, by_capability, by_model, required, is_subset, fit_loop, rotate, Miss, fits,
  by_window, healthy_adapters, closer, miss_of, get_ranked_adapters, rank_healthy,
}
use llm_gateway_with_cost_co.Adapter.{Adapter, Encoder, Message, count_prompt_tokens}
use llm_gateway_with_cost_co.Router.{
  Strategy, Options, RouterConfig, RouterState, cost_first, cascade, latency_first, round_robin,
  weighted_round_robin, complexity, other, routed,
}
use llm_gateway_with_cost_co.Router.Ranking.Failing.{Routed-cases}
use llm_gateway_with_cost_co.Text.{is_empty}
use llm_gateway_with_cost_co.Router.Order.Sorted.{All-sort_by}
use llm_gateway_with_cost_co.Router.Order.{
  cheapest_first_key, cascade_key, fastest_first_key, most_capable_first_key,
}
use llm_gateway_with_cost_co.Breaker.{BreakerConfig, Breakers, get_row, can_request}
use llm_gateway_with_cost_co.Breaker.Cycle.{
  allows, can_request-allows, get_row-can_request, allows-asked,
}

module _ {ℓ κ} {A : Type ℓ} (P : A → Type κ) where
  All-keep : (p : A → Bool) (xs : List A) → All P xs → All P (keep p xs)
  unfolding keep
  All-keep p [] h = tt
  All-keep p (x ∷ xs) h = ground (arith, All-keep p xs h.1)

  All-prefer : (p : A → Bool) (xs : List A) → All P xs → All P (prefer p xs)
  unfolding prefer
  All-prefer p xs h = ground (arith, All-keep p xs h)

  All-append : (xs ys : List A) → All P xs → All P ys → All P (xs ++ ys)
  All-append [] ys h g = g
  All-append (x ∷ xs) ys h g = (h.0, All-append xs ys h.1 g)

  All-take : (n : ℕ) (xs : List A) → All P xs → All P (take n xs)
  All-take zero xs h = tt
  All-take (suc n) [] h = tt
  All-take (suc n) (x ∷ xs) h = (h.0, All-take n xs h.1)

  All-drop : (n : ℕ) (xs : List A) → All P xs → All P (drop n xs)
  All-drop zero xs h = h
  All-drop (suc n) [] h = tt
  All-drop (suc n) (x ∷ xs) h = All-drop n xs h.1

by_window_routed :
    (encode : Encoder) (messages : List Message) (n : ℕ) (xs ys : List Adapter)
    → is_empty messages ≡ false
    → by_window encode messages n xs ≡ routed ys
    → (fit_loop encode messages n xs none).0 ≡ ys
unfolding by_window
by_window_routed encode messages n xs ys some_message e = ground arith

-- A window of 0 is unknown.
abbrev pub FitsWindow : Encoder → List Message → ℕ → Adapter → Type 0
FitsWindow encode messages max_tokens a =
    (a.context_length ≡ 0) ⊎ (count_prompt_tokens encode a messages + max_tokens ≤ a.context_length)

fits-FitsWindow :
    (encode : Encoder) (messages : List Message) (n : ℕ) (a : Adapter)
    → fits encode messages n a ≡ true
    → FitsWindow encode messages n a
unfolding fits
fits-FitsWindow encode messages n a h = ground (arith, h)

allowed_before :
    (c : BreakerConfig) (now : ℕ) (id j : String) (s : Breakers)
    → allows c now (get_row j (can_request c now id s).1) ≡ true
    → allows c now (get_row j s) ≡ true
allowed_before c now id j s h =
    ground (arith, get_row-can_request c now id j s, allows-asked c now (get_row j s))

module _ {κ} (P : Adapter → Type κ) where
  All-rotate : (xs : List Adapter) (s : RouterState) → All P xs → All P (rotate xs s).0
  unfolding rotate
  All-rotate xs s h =
      let i = s.rr_counter % length xs in
      elim (Bool-cases (ltb 1 (length xs))) [
        | inl many ↦
            rw many (All-append P (drop i xs) (take i xs) (All-drop P i xs h) (All-take P i xs h))
        | inr few ↦ rw few h
      ]

  pub All-rank_by :
      (st : Strategy) (c : RouterConfig) (now : ℕ) (is_complex : Bool) (xs : List Adapter)
      (s : RouterState)
      → All P xs
      → All P (rank_by st c now is_complex xs s).0
  unfolding rank_by
  All-rank_by cost_first c now x xs s h = All-sort_by cheapest_first_key P xs h
  All-rank_by cascade c now x xs s h = All-sort_by (cascade_key c) P xs h
  All-rank_by latency_first c now x xs s h = All-sort_by (fastest_first_key c now s) P xs h
  All-rank_by round_robin c now x xs s h = All-rotate xs s h
  All-rank_by weighted_round_robin c now x xs s h = All-rotate xs s h
  All-rank_by complexity c now true xs s h = All-sort_by (most_capable_first_key c) P xs h
  All-rank_by complexity c now false xs s h = All-sort_by cheapest_first_key P xs h
  All-rank_by other c now x xs s h = h

  All-by_capability : (o : Options) (xs : List Adapter) → All P xs → All P (by_capability o xs)
  unfolding by_capability
  All-by_capability o xs h = elim (Bool-cases (is_empty (required o))) [
    | inl any ↦ rw (any, by_capability) h
    | inr some_names ↦
        rw (some_names, by_capability)
          (All-prefer P (λ a. is_subset (required o) a.capabilities) xs h)
  ]

  All-by_model : (o : Options) (xs : List Adapter) → All P xs → All P (by_model o xs)
  unfolding by_model
  All-by_model o xs h = elim (Option-cases o.model) [
    | inl any ↦ rw (any, by_model) h
    | inr (m, e) ↦
        rw (e, by_model)
          (elim (Bool-cases (str_eq m "")) [
            | inl any ↦ rw any h
            | inr named ↦ rw named (All-prefer P (λ a. str_eq a.model m) xs h)
          ])
  ]

  All-fit_loop :
      (encode : Encoder) (messages : List Message) (n : ℕ) (xs : List Adapter) (best : Option Miss)
      → All P xs
      → All (λ a. P a × (fits encode messages n a ≡ true)) (fit_loop encode messages n xs best).0
  unfolding fit_loop
  All-fit_loop encode messages n [] best h = tt
  All-fit_loop encode messages n (a ∷ xs) best h = elim (Bool-cases (fits encode messages n a)) [
    | inl e ↦ rw e ((h.0, e), All-fit_loop encode messages n xs best h.1)
    | inr e ↦
        rw e (All-fit_loop encode messages n xs (closer (miss_of encode messages n a) best) h.1)
  ]

  All-by_window :
      (encode : Encoder) (messages : List Message) (n : ℕ) (xs ys : List Adapter)
      → is_empty messages ≡ false
      → by_window encode messages n xs ≡ routed ys
      → All P xs
      → All (λ a. P a × (fits encode messages n a ≡ true)) ys
  All-by_window encode messages n xs ys some_message e h =
      rw (sym (by_window_routed encode messages n xs ys some_message e))
        (All-fit_loop encode messages n xs none h)

  All-healthy :
      (c : BreakerConfig) (now : ℕ) (xs : List Adapter) (s : Breakers)
      → All P xs
      → All (λ a. P a × (allows c now (get_row a.id s) ≡ true)) (healthy_adapters c now xs s).0
  unfolding healthy_adapters
  All-healthy c now [] s h = tt
  All-healthy c now (a ∷ xs) s h =
      let s' = (can_request c now a.id s).1 in
      let rest =
        All-imp _ (λ b. P b × (allows c now (get_row b.id s) ≡ true)) _
          (λ b k. (k.0, allowed_before c now a.id b.id s k.1)) (All-healthy c now xs s' h.1) in
      elim (Bool-cases (can_request c now a.id s).0) [
        | inl ok_now ↦ rw ok_now ((h.0, sym (can_request-allows c now a.id s) ∙ ok_now), rest)
        | inr refused_now ↦ rw refused_now rest
      ]

pub All-Mem {ℓ} : {A : Type ℓ} (xs : List A) → All (λ a. Mem a xs) xs
All-Mem [] = tt
All-Mem (x ∷ xs) =
    (mem-cons_self, All-imp _ (λ a. Mem a (x ∷ xs)) xs (λ a m. mem-cons_of_mem x m) (All-Mem xs))

module _ (encode : Encoder) (is_complex : List Message → Bool) (c : RouterConfig) (now : ℕ)
    (messages : List Message) (o : Options) (s : RouterState) where
  ranked_from :
      {ranked : List Adapter}
      → (get_ranked_adapters encode is_complex c now messages o s).0 ≡ routed ranked
      → (fitting : List Adapter) × (by_window encode messages
            (get_or o.max_tokens 0)
            (by_capability o (healthy_adapters c.breaker now c.adapters s.breakers).0)
          ≡ routed fitting)
        × (ranked
            ≡ (rank_by c.strategy c now (is_complex messages) (by_model o fitting) (record s {
              breakers = (healthy_adapters c.breaker now c.adapters s.breakers).1;
            })).0)
  unfolding get_ranked_adapters rank_healthy
  ranked_from e =
      elim (Routed-cases (
        by_window encode messages (get_or o.max_tokens 0)
          (by_capability o (healthy_adapters c.breaker now c.adapters s.breakers).0))) [
            | inl (x, f) ↦ absurd (ground arith)
            | inr (fitting, f) ↦ (fitting, f, ground arith)
          ]

  -- For a request with some message: every ranked backend is one of the router's, its breaker admits
  -- it at that time, and its window is unknown or holds the tokens that it counts for the prompt
  -- together with `max_tokens` (0 where the request sets none).
  pub ranked_sound :
      {ranked : List Adapter}
      → is_empty messages ≡ false
      → (get_ranked_adapters encode is_complex c now messages o s).0 ≡ routed ranked
      → All
          (λ a.
            Mem a c.adapters
            × (allows c.breaker now (get_row a.id s.breakers) ≡ true)
            × FitsWindow encode messages (get_or o.max_tokens 0) a)
          ranked
  ranked_sound some_message e =
      let n = get_or o.max_tokens 0 in
      let (fitting, f, g) = ranked_from e in
      let healthy = (healthy_adapters c.breaker now c.adapters s.breakers).0 in
      let admitted = All-healthy _ c.breaker now c.adapters s.breakers (All-Mem c.adapters) in
      let capable = All-by_capability _ o healthy admitted in
      let within = All-by_window _ encode messages n _ fitting some_message f capable in
      let pinned = All-by_model _ o fitting within in
      rw g (
        All-imp _ _ _ (λ a h. (h.0.0, h.0.1, fits-FitsWindow encode messages n a h.1))
          (All-rank_by _ c.strategy c now (is_complex messages) _ _ pinned))
