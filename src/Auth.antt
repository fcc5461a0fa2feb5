-- ===== src/Auth.antt =====
-- Who may send a request (gateway/auth.py): the digests that are held in memory, and the check of a
-- request's key before the ledger's rate limit. `digest` is SHA-256.
use Prim.Native.Char.{code}
use llm_gateway_with_cost_co.Prelude.{
  arith, Bool, List, Option, String, false, get_or, if◌then◌else◌, map, none, pos, some, str_eq,
  true, ℤ, ◌&&◌, ◌==◌, ◌∷◌, ℕ, ◌||◌, [],
}
mod Admission
mod Examples
use llm_gateway_with_cost_co.Ledger.{Error, Store, Result, Budget, ok, err}
use llm_gateway_with_cost_co.Table.{Table}
use llm_gateway_with_cost_co.Text.{is_space}
use llm_gateway_with_cost_co.Ledger.RateLimit.{check_rate_limit}

-- `VALID_API_KEYS` and `RATE_LIMIT_RULES`
pub record KeyTable : Type 0 where
  pub valid_api_keys : List String
  pub rate_limit_rules : List (String × Option ℤ)

-- An entry of the budgets in the environment or in the file
pub record ConfigKey : Type 0 where
  pub api_key : String
  pub requests_per_minute : Option (Option ℤ)

unfoldable pub get_all_api_keys_and_limits : Table Budget → List (String × Option ℤ)
get_all_api_keys_and_limits [] = []
get_all_api_keys_and_limits ((k, b) ∷ t) =
    (k, b.requests_per_minute) ∷ get_all_api_keys_and_limits t

abbrev pub table_of : List (String × Option ℤ) → KeyTable
table_of records = record { valid_api_keys = map (λ r. r.0) records; rate_limit_rules = records }

-- Keys in the clear are hashed at the boundary.
abbrev pub hashed_rule : (String → String) → ConfigKey → String × Option ℤ
hashed_rule digest b = (digest b.api_key, get_or b.requests_per_minute (some (pos 60)))

-- `load_api_keys`: the ledger where there is one, whose query is taken to succeed, else the environment where it is set and can be
-- read, else the file; with none of them, no key is valid.
unfoldable pub load_api_keys :
    (String → String) → Option Store → Option (List ConfigKey) → Option (List ConfigKey) → KeyTable
load_api_keys digest (some s) env file = table_of (get_all_api_keys_and_limits s.budgets)
load_api_keys digest none (some bs) file = table_of (map (hashed_rule digest) bs)
load_api_keys digest none none (some bs) = table_of (map (hashed_rule digest) bs)
load_api_keys digest none none none = table_of []

-- `s.strip()`
unfoldable pub lstrip_string : String → String
lstrip_string String.[] = String.[]
lstrip_string (String.◌∷◌ c s) =
    let rest = lstrip_string s in if is_space (code c) then rest else String.◌∷◌ c s

abbrev is_blank : String → Bool
is_blank String.[] = true
is_blank (String.◌∷◌ c s) = false

unfoldable pub rstrip_string : String → String
rstrip_string String.[] = String.[]
rstrip_string (String.◌∷◌ c s) =
    let rest = rstrip_string s in
    if is_blank rest && is_space (code c) then String.[] else String.◌∷◌ c rest

-- What follows the prefix, where the text begins with it
unfoldable pub after_prefix : String → String → Option String
after_prefix String.[] s = some s
after_prefix (String.◌∷◌ c p) String.[] = none
after_prefix (String.◌∷◌ c p) (String.◌∷◌ d s) =
    let rest = after_prefix p s in if code c == code d then rest else none

unfoldable pub token_of : String → String
token_of header = elim (after_prefix "Bearer " header) [
  | some rest ↦ rstrip_string (lstrip_string rest)
  | none ↦ header
]

unfoldable pub is_known : String → List String → Bool
is_known token_digest [] = false
is_known token_digest (known ∷ ks) = str_eq token_digest known || is_known token_digest ks

-- What `verify_api_key` returns or raises: 401 for the first two, the ledger's 429 for the third
pub data Verdict : Type 0 where
  missing_api_key : Verdict
  invalid_api_key : Verdict
  refused_by_ledger : Error → Verdict
  let_in : String → Verdict

abbrev pub verdict_of : String → Result (Unit {0}) → Verdict
verdict_of token (ok a) = let_in token
verdict_of token (err e) = refused_by_ledger e

-- Without a ledger, no rate is limited.
unfoldable pub rate_limited_by :
    (String → String) → ℕ → String → Option Store → Verdict × Option Store
rate_limited_by digest now token none = (let_in token, none)
rate_limited_by digest now token (some s) =
    let limited = check_rate_limit digest now token s in
    (verdict_of token limited.0, some limited.1)

abbrev pub verify_header :
    (String → String) → ℕ → KeyTable → String → Option Store → Verdict × Option Store
verify_header digest now keys header ledger =
    let token = token_of header in
    if is_known (digest token) keys.valid_api_keys
    then rate_limited_by digest now token ledger
    else (invalid_api_key, ledger)

unfoldable pub verify_api_key :
    (String → String) → ℕ → KeyTable → Option String → Option Store → Verdict × Option Store
verify_api_key digest now keys none ledger = (missing_api_key, ledger)
verify_api_key digest now keys (some header) ledger =
    if is_blank header
    then (missing_api_key, ledger)
    else verify_header digest now keys header ledger
