-- ===== src/Router/Ranking/Failing.antt =====
-- How `get_ranked_adapters` (gateway/policy/router.py) may fail.
use llm_gateway_with_cost_co.Prelude.{
  Bool, List, Option-cases, arith, inl, inr, ℕ, ◌≡◌, get_or, none, refl, ◌⊎◌,
}
use llm_gateway_with_cost_co.Router.Ranking.{
  by_capability, fit_loop, by_window, healthy_adapters, get_ranked_adapters, rank_healthy,
  over_window,
}
use llm_gateway_with_cost_co.Adapter.{Adapter, Encoder, Message}
use llm_gateway_with_cost_co.Router.{
  Options, RouterConfig, RouterState, routed, Routed, RouteError, raised, deadline_exceeded,
}

pub Routed-cases {ℓ} :
    {A : Type ℓ} (r : Routed A) → ((e : RouteError) × (r ≡ raised e)) ⊎ ((a : A) × (r ≡ routed a))
Routed-cases (routed a) = inr (a, refl)
Routed-cases (raised e) = inl (e, refl)

by_window_in_time :
    (encode : Encoder) (messages : List Message) (n : ℕ) (xs : List Adapter)
    → by_window encode messages n xs ≡ raised deadline_exceeded
    → ⊥
unfolding by_window over_window
by_window_in_time encode messages n xs h =
    elim (Option-cases (fit_loop encode messages n xs none).1) [
      | inl nothing ↦ ground (arith, h, nothing)
      | inr (m, missed) ↦ ground (arith, h, missed)
    ]

-- No ranking runs out of time.
pub ranking_in_time :
    (encode : Encoder) (is_complex : List Message → Bool) (c : RouterConfig) (now : ℕ)
    (messages : List Message) (o : Options) (s : RouterState)
    → (get_ranked_adapters encode is_complex c now messages o s).0 ≡ raised deadline_exceeded
    → ⊥
unfolding get_ranked_adapters rank_healthy
ranking_in_time encode is_complex c now messages o s h = ground (
  arith,
  h,
  by_window_in_time encode messages (get_or o.max_tokens 0)
      (by_capability o (healthy_adapters c.breaker now c.adapters s.breakers).0),
)
