-- ===== src/KeyPool/Examples.antt =====
-- The key pool's theorem (gateway/policy/key_pool.py) at a pool of two keys, the first cooling down.
use mathlib.Core.List.{Mem}
use llm_gateway_with_cost_co.Prelude.{All, refl, some, ◌<◌, ◌∷◌, ◌≡◌, ◌≤◌, ◌⊎◌, []}
use llm_gateway_with_cost_co.KeyPool.{KeyPool, get_next_key, cooldown_of}
use llm_gateway_with_cost_co.Text.{Text}
use llm_gateway_with_cost_co.KeyPool.Turns.{get_next_key_ready}

abbrev pool : KeyPool
pool = record {
  keys = (65 ∷ []) ∷ (66 ∷ []) ∷ [];
  default_cooldown_sec = 60000;
  cooldowns = (65 ∷ [], 70000) ∷ [];
  index = 4;
}

get_next_key_ready_example :
    (key : Text) × ((get_next_key 50000 pool).0 ≡ some key)
    × Mem key pool.keys
    × ((cooldown_of key pool.cooldowns ≤ 50000)
        ⊎ All
            (λ k.
              (50000 < cooldown_of k pool.cooldowns)
              × (cooldown_of key pool.cooldowns ≤ cooldown_of k pool.cooldowns))
            pool.keys)
get_next_key_ready_example = get_next_key_ready 50000 pool refl
