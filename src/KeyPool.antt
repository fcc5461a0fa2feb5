-- ===== src/KeyPool.antt =====
-- `ProviderKeyPool` (gateway/policy/key_pool.py): keys in turn, with a cooldown for each. Every
-- method runs under one lock and is one step; times are in milliseconds.
pub mod Turns
mod Examples
use llm_gateway_with_cost_co.Prelude.{
  ℕ, Bool, List, Option, false, get_elem?, get_or, if◌then◌else◌, leb, length, ltb, none, not, some,
  suc, true, zero, ◌%◌, ◌&&◌, ◌++◌, ◌+◌, ◌==◌, ◌∷◌, ◌||◌, [],
}
use llm_gateway_with_cost_co.Text.{Text, is_empty, strip, same_text}

pub record KeyPool : Type 0 where
  pub keys : List Text
  pub default_cooldown_sec : ℕ
  pub cooldowns : List (Text × ℕ)
  pub index : ℕ

abbrev pub has_key : Text → List Text → Bool
has_key k [] = false
has_key k (j ∷ ks) = same_text k j || has_key k ks

-- `[k.strip() for k in keys if k.strip()]`
clean_keys : List Text → List Text
clean_keys [] = []
clean_keys (k ∷ ks) =
    let rest = clean_keys ks in if is_empty (strip k) then rest else strip k ∷ rest

pub init : List Text → ℕ → KeyPool
unfolding clean_keys
init keys default_cooldown_sec = record {
  keys = clean_keys keys;
  default_cooldown_sec = default_cooldown_sec;
  cooldowns = [];
  index = 0;
}

pub add_key : Text → KeyPool → KeyPool
add_key key p =
    let clean = strip key in
    if not (is_empty clean) && not (has_key clean p.keys)
    then record p { keys = p.keys ++ clean ∷ [] }
    else p

-- `self.cooldowns.get(key, 0.0)`
pub cooldown_of : Text → List (Text × ℕ) → ℕ
cooldown_of key [] = 0
cooldown_of key ((k, until) ∷ t) = if same_text k key then until else cooldown_of key t

set_cooldown : Text → ℕ → List (Text × ℕ) → List (Text × ℕ)
set_cooldown key until [] = (key, until) ∷ []
set_cooldown key until ((k, u) ∷ t) =
    if same_text k key then (k, until) ∷ t else (k, u) ∷ set_cooldown key until t

pub mark_rate_limited : ℕ → Text → Option ℕ → KeyPool → KeyPool
unfolding set_cooldown
mark_rate_limited now key cooldown_sec p = record p {
  cooldowns = set_cooldown key (now + get_or cooldown_sec p.default_cooldown_sec) p.cooldowns;
}

module _ (now : ℕ) (keys : List Text) (cooldowns : List (Text × ℕ)) where
  -- The loop over one turn of the keys, `left` of them from the index on: the key, and the index.
  pub next_ready : (left index : ℕ) → Option Text × ℕ
  next_ready zero index = (none, index)
  next_ready (suc left) index =
      let rest = next_ready left (index + 1) in
      elim (get_elem? keys (index % length keys)) [
        | none ↦ rest
        | some key ↦ if leb (cooldown_of key cooldowns) now then (some key, index + 1) else rest
      ]

-- `min(self.keys, key=...)`: the first of the least.
pub soonest : List (Text × ℕ) → Text → List Text → Text
soonest cooldowns best [] = best
soonest cooldowns best (k ∷ ks) =
    soonest cooldowns
      (if ltb (cooldown_of k cooldowns) (cooldown_of best cooldowns) then k else best) ks

pub get_next_key : ℕ → KeyPool → Option Text × KeyPool
get_next_key now p = elim p.keys [
  | [] ↦ (none, p)
  | k ∷ ks ↦
      let (found, index') = next_ready now p.keys p.cooldowns (length p.keys) p.index in
      let p' = record p { index = index' } in
      elim found [ some key ↦ (some key, p') | none ↦ (some (soonest p.cooldowns k ks), p') ]
]
