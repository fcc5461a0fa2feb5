-- ===== src/Auth/Admission.antt =====
-- Which requests get past gateway/auth.py.
use llm_gateway_with_cost_co.Prelude.{
  arith, Bool, List, Option, String, eq_iff, false, if◌then◌else◌, is_some, leb_ℤ, map, none, pos,
  refl, some, true, ℕ, ℤ, ◌+◌, ◌∷◌, ◌≡◌, [], Bool-cases, eq_refl, inl, inr, ◌∙◌, Option-cases, ◌⊎◌,
}
use llm_gateway_with_cost_co.Ledger.{Store, rate_limited, Budget, RateEntry}
use llm_gateway_with_cost_co.Auth.{
  is_known, Verdict, get_all_api_keys_and_limits, ConfigKey, verify_api_key, load_api_keys,
  is_blank, token_of, invalid_api_key, missing_api_key, refused_by_ledger, rate_limited_by, let_in,
}
use llm_gateway_with_cost_co.Ledger.RateLimit.{count_recent, rate_of, check_rate_limit, prune}
use llm_gateway_with_cost_co.Table.{lookup, Table}
use llm_gateway_with_cost_co.Ledger.RateLimit.Window.{count-prune, count-append}

is_known-lookup :
    (key : String) (t : Table Budget)
    → is_known key (map (λ r. r.0) (get_all_api_keys_and_limits t)) ≡ is_some (lookup key t)
unfolding is_known get_all_api_keys_and_limits lookup
is_known-lookup key [] = refl
is_known-lookup key ((k, b) ∷ t) = ground (arith, eq_iff key k, eq_iff k key, is_known-lookup key t)

-- The verdict for a key that the ledger knows, by the requests of the last minute
abbrev pub verdict_at : ℤ → ℕ → String → Verdict
verdict_at limit recent token =
    if leb_ℤ limit (pos recent) then refused_by_ledger (rate_limited limit) else let_in token

-- What the ledger is left with: the budgets as they were, and one entry more for this key in the last
-- minute if the request was admitted
abbrev pub Logged : ℕ → String → Bool → Store → Option Store → Type 0
Logged now key was_refused s none = ⊥
Logged now key was_refused s (some s') =
    (s'.budgets ≡ s.budgets)
    × (count_recent key now s'.rate_limit_log
        ≡ count_recent key now s.rate_limit_log + (if was_refused then 0 else 1))

rated :
    (digest : String → String) (now : ℕ) (token : String) (s : Store)
    → let key = digest token in
      let limit = rate_of (lookup key s.budgets) in
      let recent = count_recent key now s.rate_limit_log in
      let (verdict, after) = rate_limited_by digest now token (some s) in
      (verdict ≡ verdict_at limit recent token) × Logged now key (leb_ℤ limit (pos recent)) s after
unfolding rate_limited_by check_rate_limit count_recent
rated digest now token s =
    let key = digest token in
    let row : List RateEntry = record { api_key = key; ts = now } ∷ [] in
    let log = prune key now s.rate_limit_log in
    let here = count-prune key key now now s.rate_limit_log (omega arith) in
    let limit = rate_of (lookup key s.budgets) in
    elim (Bool-cases (leb_ℤ limit (pos (count_recent key now s.rate_limit_log)))) [
      | inl q ↦ rw (here, q) (refl, (refl, ground (arith, here)))
      | inr q ↦
          rw (here, q)
            (refl, (refl, ground (arith, here, count-append key now log row, eq_refl key)))
    ]

module _ (digest : String → String) (now : ℕ) (loaded s : Store)
    (env file : Option (List ConfigKey)) (header : String) where
  -- The keys are those of the ledger as it was when they were loaded, and the request's header is
  -- not empty. Either the digest of its token had no budget then, and the request is turned away and
  -- leaves the ledger as it is; or it had one, and the verdict is by the ledger's limit now and by the
  -- entries of the last minute, the budgets stay, and an entry is added exactly when the request is
  -- admitted. Without a header, or with an empty one, a request is turned away.
  pub verify_api_key_verdicts :
      is_blank header ≡ false
      → let keys = load_api_keys digest (some loaded) env file in
        let token = token_of header in
        let key = digest token in
        let limit = rate_of (lookup key s.budgets) in
        let recent = count_recent key now s.rate_limit_log in
        let (verdict, after) = verify_api_key digest now keys (some header) (some s) in
        ((lookup key loaded.budgets ≡ none) × (verdict ≡ invalid_api_key) × (after ≡ some s)
          ⊎ ((is_some (lookup key loaded.budgets) ≡ true)
              × (verdict ≡ verdict_at limit recent token)
              × Logged now key (leb_ℤ limit (pos recent)) s after))
        × (verify_api_key digest now keys none (some s) ≡ (missing_api_key, some s))
        × (verify_api_key digest now keys (some String.[]) (some s) ≡ (missing_api_key, some s))
  unfolding verify_api_key load_api_keys
  verify_api_key_verdicts some_header =
      let key = digest (token_of header) in
      let held = is_known-lookup key loaded.budgets in
      let limited = rated digest now (token_of header) s in
      elim (Option-cases (lookup key loaded.budgets)) [
        | inl q ↦
            let unknown : is_known key (map (λ r. r.0) (get_all_api_keys_and_limits loaded.budgets))
                ≡ false =
              ground (arith, held, q) in
            (rw (some_header, unknown) (inl (q, refl, refl)), refl, refl)
        | inr (b, q) ↦
            let known : is_some (lookup key loaded.budgets) ≡ true = ground (arith, q) in
            (rw (some_header, held ∙ known) (inr (known, limited.0, limited.1)), refl, refl)
      ]
