-- ===== src/Router/Ranking/Probe.antt =====
-- Ranking twice: `get_ranked_adapters` (gateway/policy/router.py) asks the breakers, and asking a
-- cooled breaker spends its one probe. `chat_completions` (gateway/main.py) ranks to estimate the
-- cost, and `execute` ranks again.
use llm_gateway_with_cost_co.Prelude.{
  All, All-imp, Bool, Bool-cases, List, String, arith, false, inl, inr, str_eq, true, ℕ, ◌∷◌, ◌≡◌,
  ◌≢◌, ◌||◌, [], ap, get_or, refl, eq_refl, if◌then◌else◌,
}
use llm_gateway_with_cost_co.Router.Ranking.{
  healthy_adapters, get_ranked_adapters, rank_healthy, rank_by, rotate, by_window, by_capability,
  by_model,
}
use llm_gateway_with_cost_co.Adapter.{Encoder, Adapter, Message}
use llm_gateway_with_cost_co.Breaker.Cycle.{asked, allows, get_row-can_request, can_request-allows}
use llm_gateway_with_cost_co.Router.{
  RouterConfig, Options, RouterState, Strategy, cost_first, raised, no_available_backend, routed,
}
use llm_gateway_with_cost_co.Breaker.{BreakerConfig, get_row, Breakers, has_cooled, can_request}
use llm_gateway_with_cost_co.Ledger.{open_circuit, half_open}
use llm_gateway_with_cost_co.Router.Ranking.Sound.{ranked_sound}
use llm_gateway_with_cost_co.Router.Ranking.Failing.{Routed-cases}
use llm_gateway_with_cost_co.Text.{is_empty}

-- Whether the id is among the adapters that are asked.
abbrev pub is_listed : String → List Adapter → Bool
is_listed id [] = false
is_listed id (a ∷ adapters) = str_eq a.id id || is_listed id adapters

pub half_open_stays :
    (c : BreakerConfig) (now : ℕ) (id : String) (xs : List Adapter) (s : Breakers)
    → (get_row id s).state ≡ half_open
    → (get_row id (healthy_adapters c now xs s).1).state ≡ half_open
unfolding healthy_adapters asked
half_open_stays c now id [] s h = h
half_open_stays c now id (a ∷ xs) s h =
    half_open_stays c now id xs (can_request c now a.id s).1
      (ground (arith, get_row-can_request c now a.id id s))

probe_spent :
    (c : BreakerConfig) (now : ℕ) (id : String) (xs : List Adapter) (s : Breakers)
    → (get_row id s).state ≡ open_circuit
    → has_cooled c now (get_row id s) ≡ true
    → is_listed id xs ≡ true
    → (get_row id (healthy_adapters c now xs s).1).state ≡ half_open
unfolding healthy_adapters asked
probe_spent c now id [] s tripped cooled listed = absurd (ground arith)
probe_spent c now id (a ∷ xs) s tripped cooled listed = elim (Bool-cases (str_eq a.id id)) [
  | inl mine ↦
      half_open_stays c now id xs (can_request c now a.id s).1
        (ground (arith, get_row-can_request c now a.id id s))
  | inr other ↦
      let same : get_row id (can_request c now a.id s).1 ≡ get_row id s =
        ground (arith, get_row-can_request c now a.id id s) in
      probe_spent c now id xs (can_request c now a.id s).1 (rw same tripped) (rw same cooled)
        (ground arith)
]

breakers-rank_by :
    (st : Strategy) (c : RouterConfig) (now : ℕ) (x : Bool) (xs : List Adapter) (s : RouterState)
    → (rank_by st c now x xs s).1.breakers ≡ s.breakers
unfolding rank_by rotate
breakers-rank_by cost_first c now x xs s = refl
breakers-rank_by _ c now x xs s = ground arith

module _ (encode : Encoder) (is_complex : List Message → Bool) (c : RouterConfig) where
  breakers-rank_healthy :
      (now : ℕ) (messages : List Message) (o : Options) (xs : List Adapter) (s : RouterState)
      → (rank_healthy encode is_complex c now messages o xs s).1.breakers ≡ s.breakers
  unfolding rank_healthy
  breakers-rank_healthy now messages o xs s =
      elim (Routed-cases (by_window encode messages (get_or o.max_tokens 0) (by_capability o xs))) [
        | inl (e, f) ↦ ground arith
        | inr (fitting, f) ↦
            ground (
              arith,
              breakers-rank_by c.strategy c now (is_complex messages) (by_model o fitting) s,
            )
      ]

  pub breakers-ranked :
      (now : ℕ) (messages : List Message) (o : Options) (s : RouterState)
      → (get_ranked_adapters encode is_complex c now messages o s).1.breakers
        ≡ (healthy_adapters c.breaker now c.adapters s.breakers).1
  unfolding get_ranked_adapters
  breakers-ranked now messages o s =
      let (candidates, breakers') = healthy_adapters c.breaker now c.adapters s.breakers in
      breakers-rank_healthy now messages o candidates (record s { breakers = breakers' })

  -- If a listed backend's breaker has cooled, the first ranking spends its probe: a second
  -- ranking, however much later and for whatever request with some message, does not offer that
  -- backend.
  pub second_ranking_skips :
      (now later : ℕ) (messages messages' : List Message) (o o' : Options) (s : RouterState)
      (id : String) {ranked : List Adapter}
      → (get_row id s.breakers).state ≡ open_circuit
      → has_cooled c.breaker now (get_row id s.breakers) ≡ true
      → is_listed id c.adapters ≡ true
      → is_empty messages' ≡ false
      → let s' = (get_ranked_adapters encode is_complex c now messages o s).1 in
        (get_ranked_adapters encode is_complex c later messages' o' s').0 ≡ routed ranked
        → All (λ a. a.id ≢ id) ranked
  unfolding allows
  second_ranking_skips now later messages messages' o o' s id tripped cooled listed some_message e =
      let s' = (get_ranked_adapters encode is_complex c now messages o s).1 in
      let spent : (get_row id s'.breakers).state ≡ half_open =
        rw (breakers-ranked now messages o s)
          (probe_spent c.breaker now id c.adapters s.breakers tripped cooled listed) in
      All-imp _ _ _
        (λ a h same. ground (arith, h.1, ap (λ (j : String). get_row j s'.breakers) same))
        (ranked_sound encode is_complex c later messages' o' s' some_message e)

  alone :
      (now : ℕ) (a : Adapter) (s : Breakers)
      → c.adapters ≡ a ∷ []
      → (healthy_adapters c.breaker now c.adapters s).0
        ≡ (if allows c.breaker now (get_row a.id s) then a ∷ [] else [])
  unfolding healthy_adapters
  alone now a s only = rw only (ground (arith, can_request-allows c.breaker now a.id s))

  none_healthy :
      (now : ℕ) (messages : List Message) (o : Options) (s : RouterState)
      → (healthy_adapters c.breaker now c.adapters s.breakers).0 ≡ []
      → (get_ranked_adapters encode is_complex c now messages o s).0 ≡ raised no_available_backend
  unfolding get_ranked_adapters rank_healthy
  none_healthy now messages o s e = rw (e, get_ranked_adapters)

  -- With one backend, whose breaker has cooled: the first ranking has a healthy candidate, and the
  -- second, however much later, raises that no backend is available.
  pub second_ranking_alone :
      (now later : ℕ) (messages messages' : List Message) (o o' : Options) (s : RouterState)
      (a : Adapter)
      → c.adapters ≡ a ∷ []
      → (get_row a.id s.breakers).state ≡ open_circuit
      → has_cooled c.breaker now (get_row a.id s.breakers) ≡ true
      → let s' = (get_ranked_adapters encode is_complex c now messages o s).1 in
        ((healthy_adapters c.breaker now c.adapters s.breakers).0 ≡ a ∷ [])
        × ((get_ranked_adapters encode is_complex c later messages' o' s').0
            ≡ raised no_available_backend)
  unfolding allows
  second_ranking_alone now later messages messages' o o' s a only tripped cooled =
      let s' = (get_ranked_adapters encode is_complex c now messages o s).1 in
      let listed : is_listed a.id c.adapters ≡ true = rw only (ground (arith, eq_refl a.id)) in
      let spent : (get_row a.id s'.breakers).state ≡ half_open =
        rw (breakers-ranked now messages o s)
          (probe_spent c.breaker now a.id c.adapters s.breakers tripped cooled listed) in
      (
        ground (arith, alone now a s.breakers only),
        none_healthy later messages' o' s' (ground (arith, alone later a s'.breakers only)),
      )
