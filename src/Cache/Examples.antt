-- ===== src/Cache/Examples.antt =====
-- The cache's theorems (gateway/policy/cache.py) at a cache for two entries.
use llm_gateway_with_cost_co.Prelude.{
  arith, List, String, eq_iff, false, if◌then◌else◌, pos, refl, some, true, ◌+◌, ◌∷◌, ◌≡◌, ◌≢◌, ◌≤◌,
  [],
}
use llm_gateway_with_cost_co.Cache.{
  PromptCache, Fingerprint, get, get_entry, Kwargs, is_cacheable, unset, Entry, generate_key,
  set_entry,
}
use llm_gateway_with_cost_co.Adapter.{Message}
use llm_gateway_with_cost_co.Text.{is_empty}
use llm_gateway_with_cost_co.Table.{lookup}
use llm_gateway_with_cost_co.Cache.Replay.{get_fresh, get_keeps_recent}

abbrev fingerprint : Fingerprint
fingerprint messages kwargs = if is_empty messages then "none" else "some"

abbrev question : List Message
question = record { role = "user"; content = 72 ∷ 105 ∷ [] } ∷ []

abbrev plain : Kwargs
plain = record { no_cache = false; cache_is_false = false; temperature = unset; items = [] }

-- Asks for JSON, which no key shows.
abbrev json : Kwargs
json = record plain { items = ("response_format", []) ∷ [] }

abbrev start : PromptCache String
start = record {
  ttl_seconds = 300;
  max_entries = 2;
  max_cacheable_temperature = pos 1000;
  cache =
      ("old", record { timestamp = 0; response = "old reply" })
      ∷ ("a", record { timestamp = 5; response = "first" })
      ∷ [];
}

stored :
    (get fingerprint 200 question plain
      (record start { cache = ("some", record { timestamp = 10; response = "hello" }) ∷ [] })).0
    ≡ some "hello"
unfolding get lookup
stored = refl

get_fresh_example :
    (is_cacheable plain start ≡ true)
    × (e : Entry String) × (lookup
          (generate_key fingerprint question plain)
          (("some", record { timestamp = 10; response = "hello" }) ∷ [])
        ≡ some e)
    × (e.response ≡ "hello")
    × (200 ≤ e.timestamp + 300)
unfolding is_cacheable
get_fresh_example =
    get_fresh fingerprint 200 question plain "hello"
      (record start { cache = ("some", record { timestamp = 10; response = "hello" }) ∷ [] }) stored

a_not_b : ◌≢◌ {A = String} "a" "b"
a_not_b e = ground (arith, e, eq_iff "a" "b")

get_keeps_recent_example :
    (e : Entry String) × (lookup "a" (set_entry 30 "b" "third" (get_entry 20 "a" start).1).cache
      ≡ some e)
    × (e.response ≡ "first")
unfolding get_entry lookup
get_keeps_recent_example =
    get_keeps_recent 20 30 "a" "b" "first" "third" start (omega arith) a_not_b refl
