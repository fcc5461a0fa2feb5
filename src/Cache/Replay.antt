-- ===== src/Cache/Replay.antt =====
-- What `PromptCache` (gateway/policy/cache.py) serves, how much it holds, and what it drops first.
use llm_gateway_with_cost_co.Prelude.{
  arith, List, Option-cases, String, eq_refl, inl, inr, length, refl, some, true, ℕ, ◌++◌, ◌+◌, ◌∙◌,
  ◌∷◌, ◌≡◌, ◌≢◌, ◌≤◌, [], Bool-cases, Option, ap, false,
}
use llm_gateway_with_cost_co.Cache.{
  get_entry, evict, set_entry, get, move_to_end, set, PromptCache, Fingerprint, Entry, Kwargs,
  is_cacheable, generate_key, has_expired,
}
use llm_gateway_with_cost_co.Table.{remove, lookup, lookup-remove_self}
use llm_gateway_with_cost_co.Adapter.{Message}
use llm_gateway_with_cost_co.Cache.Rows.{
  insert-move_to_end, length-evict, move_to_end-found, lookup-evict, lookup-evict_two,
}

module _ {A : Type 0} where
  set_entry-cache :
      (now : ℕ) (key : String) (r : A) (c : PromptCache A)
      → (set_entry now key r c).cache
        ≡ evict c.max_entries
            (remove key c.cache ++ (key, record { timestamp = now; response = r }) ∷ [])
  unfolding set_entry
  set_entry-cache now key r c =
      rw (insert-move_to_end key (record { timestamp = now; response = r }) c.cache) refl

  lookup-set_entry :
      (now : ℕ) (key : String) (r : A) (c : PromptCache A)
      → 1 ≤ c.max_entries
      → lookup key (set_entry now key r c).cache ≡ some (record { timestamp = now; response = r })
  unfolding lookup
  lookup-set_entry now key r c room = rw (set_entry-cache now key r c) (
      lookup-evict c.max_entries key (remove key c.cache) _ (lookup-remove_self key c.cache)
        (omega (arith, room))
      ∙ rw (eq_refl key) refl)

  get_entry_found :
      (now : ℕ) (key : String) (c : PromptCache A) (e : Entry A)
      → lookup key c.cache ≡ some e
      → has_expired now c e ≡ false
      → get_entry now key c ≡ (some e.response, record c { cache = move_to_end key c.cache })
  unfolding get_entry
  get_entry_found now key c e f live = rw (f, get_entry) (rw (live) refl)

  -- What a hit tells of the entry.
  get_entry_hit :
      (now : ℕ) (key : String) (c : PromptCache A) (r : A)
      → (get_entry now key c).0 ≡ some r
      → (e : Entry A) × (lookup key c.cache ≡ some e)
        × (has_expired now c e ≡ false)
        × (e.response ≡ r)
  unfolding get_entry
  get_entry_hit now key c r h = elim (Option-cases (lookup key c.cache)) [
    | inl f ↦ absurd (ground (arith, f, h))
    | inr (e, f) ↦ (e, f, ground (arith, f, h), ground (arith, f, h))
  ]

  set_cacheable :
      (fingerprint : Fingerprint) (now : ℕ) (messages : List Message) (kwargs : Kwargs) (r : A)
      (c : PromptCache A)
      → is_cacheable kwargs c ≡ true
      → set fingerprint now messages kwargs r c
        ≡ set_entry now (generate_key fingerprint messages kwargs) r c
  unfolding set
  set_cacheable fingerprint now messages kwargs r c h = rw (h, set) refl

  get_cacheable :
      (fingerprint : Fingerprint) (now : ℕ) (messages : List Message) (kwargs : Kwargs)
      (c : PromptCache A)
      → is_cacheable kwargs c ≡ true
      → get fingerprint now messages kwargs c
        ≡ get_entry now (generate_key fingerprint messages kwargs) c
  unfolding get
  get_cacheable fingerprint now messages kwargs c h = rw (h, get) refl

  is_cacheable-set_entry :
      (now : ℕ) (key : String) (r : A) (kwargs : Kwargs) (c : PromptCache A)
      → is_cacheable kwargs (set_entry now key r c) ≡ is_cacheable kwargs c
  unfolding is_cacheable set_entry
  is_cacheable-set_entry now key r kwargs c = refl

  -- `set` leaves at most `max_entries` entries when the request may be cached.
  set_bounded :
      (fingerprint : Fingerprint) (now : ℕ) (messages : List Message) (kwargs : Kwargs) (r : A)
      (c : PromptCache A)
      → is_cacheable kwargs c ≡ true
      → length (set fingerprint now messages kwargs r c).cache ≤ c.max_entries
  unfolding set set_entry
  set_bounded fingerprint now messages kwargs r c h = rw (h, set) (length-evict c.max_entries _)

  -- With room for an entry: what was stored for one request is served to every request with the
  -- same key that may be cached, until `ttl_seconds` have passed.
  pub get-set :
      (fingerprint : Fingerprint) (now later : ℕ) (messages messages' : List Message)
      (kwargs kwargs' : Kwargs) (r : A) (c : PromptCache A)
      → 1 ≤ c.max_entries
      → is_cacheable kwargs c ≡ true
      → is_cacheable kwargs' c ≡ true
      → generate_key fingerprint messages' kwargs' ≡ generate_key fingerprint messages kwargs
      → later ≤ now + c.ttl_seconds
      → (get fingerprint later messages' kwargs' (set fingerprint now messages kwargs r c)).0
        ≡ some r
  get-set fingerprint now later messages messages' kwargs kwargs' r c room may may' same soon =
      let key = generate_key fingerprint messages kwargs in
      let c' = set_entry now key r c in
      let e : Entry A = record { timestamp = now; response = r } in
      rw
        (
          set_cacheable fingerprint now messages kwargs r c may,
          get_cacheable fingerprint later messages' kwargs' c'
              (is_cacheable-set_entry now key r kwargs' c ∙ may'),
          same,
        )
        (ap (λ (p : Option A × PromptCache A). p.0)
          (get_entry_found later key c' e (lookup-set_entry now key r c room)
            (unfold set_entry in ground (arith, soon))))

  -- `get` serves only a request that may be cached, from an entry under its key that has not
  -- expired.
  pub get_fresh :
      (fingerprint : Fingerprint) (now : ℕ) (messages : List Message) (kwargs : Kwargs) (r : A)
      (c : PromptCache A)
      → (get fingerprint now messages kwargs c).0 ≡ some r
      → (is_cacheable kwargs c ≡ true)
        × (e : Entry A) × (lookup (generate_key fingerprint messages kwargs) c.cache ≡ some e)
        × (e.response ≡ r)
        × (now ≤ e.timestamp + c.ttl_seconds)
  unfolding get get_entry
  get_fresh fingerprint now messages kwargs r c h = elim (Bool-cases (is_cacheable kwargs c)) [
    | inl may ↦
        let (e, f, live, x) =
          get_entry_hit now (generate_key fingerprint messages kwargs) c r
            (rw (get_cacheable fingerprint now messages kwargs c may) at h) in
        (may, e, f, x, ground (arith, live))
    | inr barred ↦ absurd (ground (arith, barred, rw (barred, get) at h))
  ]

  -- With room for two entries: an entry that was just served is still there after the next reply is
  -- stored under another key, however full the cache was.
  pub get_keeps_recent :
      (now later : ℕ) (key other : String) (r r' : A) (c : PromptCache A)
      → 2 ≤ c.max_entries
      → key ≢ other
      → (get_entry now key c).0 ≡ some r
      → (e : Entry A) × (lookup key (set_entry later other r' (get_entry now key c).1).cache
          ≡ some e)
        × (e.response ≡ r)
  get_keeps_recent now later key other r r' c room ne h =
      let (e, f, live, x) = get_entry_hit now key c r h in
      let c' = record c { cache = move_to_end key c.cache } in
      let found = get_entry_found now key c e f live in
      (
        e,
        rw (found, set_entry-cache later other r' c', move_to_end-found key e c.cache f)
            (lookup-evict_two c.max_entries key other e
              (record { timestamp = later; response = r' }) (remove key c.cache)
              (lookup-remove_self key c.cache) ne room),
        x,
      )
