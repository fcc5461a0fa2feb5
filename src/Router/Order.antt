-- ===== src/Router/Order.antt =====
-- The ranking keys of gateway/policy/router.py, and Python's stable sort by such a key.
pub mod Sorted
use llm_gateway_with_cost_co.Prelude.{
  Bool, List, false, if◌then◌else◌, leb_ℤ, ltb, ltb_ℤ, none, not, pos, some, ℕ, ℤ, ◌&&◌, ◌+◌, ◌-ℤ◌,
  ◌==◌, ◌∷◌, ◌||◌, [],
}
use llm_gateway_with_cost_co.Router.{RouterConfig, RouterState}
use llm_gateway_with_cost_co.Adapter.{Adapter}
use llm_gateway_with_cost_co.Table.{lookup}

-- A key is a pair, compared by its first part and then by its second.
abbrev pub Key : Type 0
Key = ℤ × ℤ

abbrev pub key_leb : Key → Key → Bool
key_leb (a, b) (c, d) = ltb_ℤ a c || leb_ℤ a c && leb_ℤ b d

-- `list.sort(key=...)`: equal keys keep their order.
module _ {ℓ} {A : Type ℓ} (key : A → Key) where
  pub insert_by : A → List A → List A
  insert_by x [] = x ∷ []
  insert_by x (y ∷ ys) = if key_leb (key x) (key y) then x ∷ y ∷ ys else y ∷ insert_by x ys

  pub sort_by : List A → List A
  unfolding insert_by
  sort_by [] = []
  sort_by (x ∷ xs) = insert_by x (sort_by xs)

abbrev pub minus : ℕ → ℤ
minus n = pos 0 -ℤ pos n

any_tier : List Adapter → Bool
any_tier [] = false
any_tier (a ∷ adapters) = not (a.capability_tier == 0) || any_tier adapters

-- Over all of the router's adapters, not over the candidates.
pub any_tier_declared : RouterConfig → Bool
unfolding any_tier
any_tier_declared c = any_tier c.adapters

-- Unmeasured first, and so is a measurement that is too old; a first part of 0 sorts ahead.
pub fastest_first_key : RouterConfig → ℕ → RouterState → Adapter → Key
fastest_first_key c now s a = elim (lookup a.id s.latency_measured_at) [
  | none ↦ (pos 0, pos a.cost_per_1k_prompt)
  | some at ↦ elim (lookup a.id s.latency_ema) [
    | none ↦ (pos 0, pos a.cost_per_1k_prompt)
    | some ema ↦
        if ltb (at + c.latency_recheck_sec) now
        then (pos 0, pos a.cost_per_1k_prompt)
        else (pos 1, pos ema)
  ]
]

pub cheapest_first_key : Adapter → Key
cheapest_first_key a = (pos a.cost_per_1k_prompt, minus a.capability_tier)

pub cascade_key : RouterConfig → Adapter → Key
cascade_key c a =
    if any_tier_declared c
    then (pos a.capability_tier, pos a.cost_per_1k_prompt)
    else (pos a.cost_per_1k_prompt, pos 0)

pub most_capable_first_key : RouterConfig → Adapter → Key
most_capable_first_key c a =
    if any_tier_declared c
    then (minus a.capability_tier, pos a.cost_per_1k_prompt)
    else (minus a.cost_per_1k_prompt, pos 0)
