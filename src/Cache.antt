-- ===== src/Cache.antt =====
-- `PromptCache` (gateway/policy/cache.py): a bounded table of replies, the least recently used
-- first, whose entries expire. Every method runs under one lock and is one step. `fingerprint` is
-- the SHA-256 of the JSON text of what `_generate_key` keeps; replies are values, so copies are free.
pub mod Rows
pub mod Replay
mod Examples
use llm_gateway_with_cost_co.Prelude.{
  ℕ, Bool, List, Option, String, false, if◌then◌else◌, leb_ℤ, length, ltb, none, not, some, true, ℤ,
  ◌++◌, ◌+◌, ◌∷◌, ◌||◌, [],
}
use llm_gateway_with_cost_co.Adapter.{Message}
use llm_gateway_with_cost_co.Table.{insert, lookup, Table, remove}
use llm_gateway_with_cost_co.Text.{Text, strip, codes}
use llm_gateway_with_cost_co.Router.Ranking.{member}

-- A temperature in thousandths; `odd` is one that `float` refuses.
pub data Temperature : Type 0 where
  unset odd : Temperature
  set_to : ℤ → Temperature

-- The keyword arguments: the two switches, the temperature, and all of them by name, as JSON.
pub record Kwargs : Type 0 where
  pub no_cache : Bool
  pub cache_is_false : Bool
  pub temperature : Temperature
  pub items : Table Text

pub record Entry (A : Type 0) : Type 0 where
  pub timestamp : ℕ
  pub response : A

pub record PromptCache (A : Type 0) : Type 0 where
  pub ttl_seconds : ℕ
  pub max_entries : ℕ
  pub max_cacheable_temperature : ℤ
  pub cache : Table (Entry A)

-- The names that `_generate_key` keeps.
abbrev pub key_kwargs : List String
key_kwargs =
    "model" ∷ "temperature" ∷ "max_tokens" ∷ "top_p" ∷ "seed" ∷ "presence_penalty"
    ∷ "frequency_penalty" ∷ []

abbrev pub Fingerprint : Type 0
Fingerprint = List (Text × Text) → Table Text → String

normalized_messages : List Message → List (Text × Text)
normalized_messages [] = []
normalized_messages (m ∷ ms) = (strip (codes m.role), strip m.content) ∷ normalized_messages ms

normalized_kwargs : Table Text → Table Text
normalized_kwargs [] = []
normalized_kwargs ((k, v) ∷ items) =
    let rest = normalized_kwargs items in if member k key_kwargs then (k, v) ∷ rest else rest

pub generate_key : Fingerprint → List Message → Kwargs → String
unfolding normalized_messages normalized_kwargs
generate_key fingerprint messages kwargs =
    fingerprint (normalized_messages messages) (normalized_kwargs kwargs.items)

-- `OrderedDict.move_to_end`
pub move_to_end {ℓ} : {V : Type ℓ} → String → Table V → Table V
move_to_end key t = elim (lookup key t) [ none ↦ t | some v ↦ remove key t ++ (key, v) ∷ [] ]

-- `while len(self.cache) > self.max_entries: popitem(last=False)`
pub evict {ℓ} : {V : Type ℓ} → ℕ → Table V → Table V
evict n [] = []
evict n (row ∷ t) = let rest = evict n t in if ltb n (length (row ∷ t)) then rest else row ∷ t

module _ {A : Type 0} where
  unfoldable pub is_cacheable : Kwargs → PromptCache A → Bool
  is_cacheable kwargs c =
      if kwargs.no_cache || kwargs.cache_is_false then false else elim kwargs.temperature [
        | unset ↦ true
        | odd ↦ true
        | set_to t ↦ leb_ℤ t c.max_cacheable_temperature
      ]

  -- `time.time() - entry["timestamp"] > self.ttl_seconds`
  abbrev pub has_expired : ℕ → PromptCache A → Entry A → Bool
  has_expired now c e = ltb (e.timestamp + c.ttl_seconds) now

  -- The locked part of `get`, at a key.
  pub get_entry : ℕ → String → PromptCache A → Option A × PromptCache A
  unfolding move_to_end
  get_entry now key c = elim (lookup key c.cache) [
    | none ↦ (none, c)
    | some e ↦
        if has_expired now c e
        then (none, record c { cache = remove key c.cache })
        else (some e.response, record c { cache = move_to_end key c.cache })
  ]

  pub get : Fingerprint → ℕ → List Message → Kwargs → PromptCache A → Option A × PromptCache A
  unfolding is_cacheable generate_key get_entry
  get fingerprint now messages kwargs c =
      if not (is_cacheable kwargs c)
      then (none, c)
      else get_entry now (generate_key fingerprint messages kwargs) c

  -- The locked part of `set`, at a key.
  pub set_entry : ℕ → String → A → PromptCache A → PromptCache A
  unfolding move_to_end evict
  set_entry now key response c = record c {
    cache =
        evict c.max_entries
          (insert key (record { timestamp = now; response = response }) (move_to_end key c.cache));
  }

  pub set : Fingerprint → ℕ → List Message → Kwargs → A → PromptCache A → PromptCache A
  unfolding is_cacheable generate_key set_entry
  set fingerprint now messages kwargs response c =
      if not (is_cacheable kwargs c)
      then c
      else set_entry now (generate_key fingerprint messages kwargs) response c

  pub clear : PromptCache A → PromptCache A
  clear c = record c { cache = [] }
