-- ===== src/Ledger/RateLimit.antt =====
-- `check_rate_limit` (gateway/ledger/store.py): a sliding window of sixty seconds for each key.
pub mod Window
use llm_gateway_with_cost_co.Prelude.{
  ℕ, suc, ◌+◌, ◌*◌, Bool, ◌&&◌, Option, none, some, List, [], ◌∷◌, ◌++◌, String, str_eq, ℤ, pos,
  leb_ℤ, ltb, leb, if◌then◌else◌, get_or,
}
use llm_gateway_with_cost_co.Table.{lookup}
use llm_gateway_with_cost_co.Ledger.{
  Budget, RateEntry, Store, second, Result, ok, err, rate_limited,
}
use llm_gateway_with_cost_co.Ledger.Budgets.{default_rpm}

abbrev pub window : ℕ
window = 60 * second

-- `DELETE ... WHERE api_key = key AND ts < now - 60`
pub prune : String → ℕ → List RateEntry → List RateEntry
prune key now [] = []
prune key now (e ∷ log) =
    let rest = prune key now log in
    if str_eq e.api_key key && ltb (e.ts + window) now then rest else e ∷ rest

-- `SELECT COUNT(*) ... WHERE api_key = key AND ts >= now - 60`
unfoldable pub count_recent : String → ℕ → List RateEntry → ℕ
count_recent key now [] = 0
count_recent key now (e ∷ log) =
    (if str_eq e.api_key key && leb now (e.ts + window) then 1 else 0) + count_recent key now log

-- The row's limit; a missing row and a NULL mean 60.
pub rate_of : Option Budget → ℤ
rate_of none = default_rpm
rate_of (some b) = get_or b.requests_per_minute default_rpm

unfoldable pub check_rate_limit : (String → String) → ℕ → String → Store → Result (Unit {0}) × Store
unfolding prune count_recent rate_of
check_rate_limit digest now api_key s =
    let key = digest api_key in
    let log = prune key now s.rate_limit_log in
    let limit = rate_of (lookup key s.budgets) in
    if leb_ℤ limit (pos (count_recent key now log))
    then (err (rate_limited limit), record s { rate_limit_log = log })
    else (ok tt, record s { rate_limit_log = log ++ record { api_key = key; ts = now } ∷ [] })
