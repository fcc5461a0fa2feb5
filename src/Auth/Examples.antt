-- ===== src/Auth/Examples.antt =====
-- Requests with and without a key that the ledger knows.
use llm_gateway_with_cost_co.Prelude.{String, is_some, leb_ℤ, none, pos, refl, some, true, ◌≡◌, ◌⊎◌}
use llm_gateway_with_cost_co.Ledger.Examples.{digest, start}
use llm_gateway_with_cost_co.Auth.{
  token_of, load_api_keys, after_prefix, lstrip_string, rstrip_string, verify_api_key,
  invalid_api_key, missing_api_key,
}
use llm_gateway_with_cost_co.Ledger.RateLimit.{rate_of, count_recent}
use llm_gateway_with_cost_co.Table.{lookup}
use llm_gateway_with_cost_co.Text.{is_space}
use llm_gateway_with_cost_co.Auth.Admission.{verdict_at, Logged, verify_api_key_verdicts}

token_of_header : token_of "Bearer  alice " ≡ "alice"
unfolding token_of after_prefix lstrip_string rstrip_string is_space
token_of_header = refl

verify_api_key_verdicts_example :
    let keys = load_api_keys digest (some start) none none in
    let token = token_of "Bearer alice" in
    let key = digest token in
    let limit = rate_of (lookup key start.budgets) in
    let recent = count_recent key 5 start.rate_limit_log in
    let (verdict, after) = verify_api_key digest 5 keys (some "Bearer alice") (some start) in
    ((lookup key start.budgets ≡ none) × (verdict ≡ invalid_api_key) × (after ≡ some start)
      ⊎ ((is_some (lookup key start.budgets) ≡ true)
          × (verdict ≡ verdict_at limit recent token)
          × Logged 5 key (leb_ℤ limit (pos recent)) start after))
    × (verify_api_key digest 5 keys none (some start) ≡ (missing_api_key, some start))
    × (verify_api_key digest 5 keys (some String.[]) (some start) ≡ (missing_api_key, some start))
verify_api_key_verdicts_example =
    verify_api_key_verdicts digest 5 start start none none "Bearer alice" refl
