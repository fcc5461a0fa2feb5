-- ===== src/Ledger/Examples.antt =====
-- The ledger's theorems (gateway/ledger/store.py) at one client with a budget of 10 a day.
use llm_gateway_with_cost_co.Prelude.{
  arith, String, none, pos, refl, some, ◌-ℤ◌, ◌∷◌, ◌≡◌, ◌≤ℤ◌, ◌⊎◌, [], int_laws, ◌+ℤ◌, ◌≢◌, eq_iff,
  max_zero, ◌≤◌, ◌+◌,
}
use llm_gateway_with_cost_co.Ledger.{
  Budget, Store, Clock, empty, ok, err, daily_exceeded, monthly_exceeded, Hold,
}
use llm_gateway_with_cost_co.Ledger.Budgets.{
  reset_periods, add_spend, get_budget, check_and_reserve_budget,
}
use llm_gateway_with_cost_co.Ledger.Requests.{Spend, record_request}
use llm_gateway_with_cost_co.Ledger.Accounts.Balance.{
  counters_add_up, IsBalanced, here, next, reserve, Reach,
}
use llm_gateway_with_cost_co.Table.{lookup, adjust}
use llm_gateway_with_cost_co.Ledger.Accounts.Rollover.{late_settlement}
use llm_gateway_with_cost_co.Ledger.Budgets.Limits.{IsWithin, reserve_admits}
use llm_gateway_with_cost_co.Ledger.Accounts.{charged, held}
use llm_gateway_with_cost_co.Ledger.Reclaim.Refunds.{reclaim_refunds, owed_today, owed_this_month}
use llm_gateway_with_cost_co.Ledger.Reclaim.Steps.{AllYoung}
use llm_gateway_with_cost_co.Ledger.RateLimit.Window.{
  check_rate_limit_refines, admit, is_ok, SameWindow,
}
use llm_gateway_with_cost_co.Ledger.Reclaim.{reclaim_stale_reservations}
use llm_gateway_with_cost_co.Ledger.RateLimit.{rate_of, check_rate_limit}

abbrev pub digest : String → String
digest k = k

abbrev pub noon : Clock
noon = record { now = 100000; today = "2025-01-02"; month = "2025-01" }

abbrev pub alice : Budget
alice = record {
  key_prefix = none;
  daily_limit_usd = some (pos 10);
  monthly_limit_usd = some (pos 100);
  spend_today = pos 4;
  spend_month = pos 4;
  last_reset_date = some "2025-01-02";
  last_reset_month = some "2025-01";
  requests_per_minute = some (pos 2);
}

abbrev pub start : Store
start = record empty { budgets = ("alice", alice) ∷ [] }

-- Yesterday's row, with a hold of 3 in it.
abbrev pub stale_alice : Budget
stale_alice = record alice { last_reset_date = some "2025-01-01" }

abbrev pub yesterday : Store
yesterday = record empty { budgets = ("alice", stale_alice) ∷ [] }

abbrev pub spend : Spend
spend = record {
  api_key = "alice";
  req_id = "r1";
  backend = "groq";
  model = "m";
  prompt_tokens = 5;
  comp_tokens = 7;
  cost = pos 2;
  latency = 30;
  reserved_cost = pos 3;
}

-- A hold of 3 that nobody settles.
abbrev pub abandoned : Store
abandoned = record start {
  reservations =
      (
        "r1",
        record {
          api_key = "alice";
          amount_usd = pos 3;
          reset_date = some "2025-01-02";
          reset_month = some "2025-01";
          reserved_at = 100000;
        },
      )
      ∷ [];
}

reserve_admits_example :
    let b = reset_periods noon alice in
    let after = add_spend (pos 3) b in
    let (r, s') = check_and_reserve_budget digest noon "alice" (pos 3) (some "r1") start in
    ((r ≡ ok after) × (lookup "alice" s'.budgets ≡ some after) × IsWithin after)
    ⊎ (((r ≡ err daily_exceeded) ⊎ (r ≡ err monthly_exceeded))
        × (lookup "alice" s'.budgets ≡ some b)
        × (s'.reservations ≡ start.reservations)
        × (¬ (IsWithin after)))
unfolding lookup
reserve_admits_example = reserve_admits digest noon "alice" (pos 3) (some "r1") start alice refl

late_settlement_example :
    (row : Budget) × (lookup "alice"
        (record_request digest spend (get_budget digest noon "alice" yesterday).1).1.budgets
      ≡ some row)
    × (row.spend_today ≡ pos 2 -ℤ pos 3)
    × (¬ (pos 0 ≤ℤ row.spend_today))
unfolding lookup
late_settlement_example =
    late_settlement digest noon spend yesterday stale_alice refl refl refl
      (λ h. omega (int_laws, h))

lookup-start : (key : String) (b : Budget) → lookup key start.budgets ≡ some b → b ≡ alice
unfolding lookup
lookup-start key b e = ground arith

start-IsBalanced : IsBalanced noon (pos 4) (pos 4) "alice" start
unfolding charged held ◌+ℤ◌
start-IsBalanced = record {
  keyed = tt;
  row = λ b e. rw (lookup-start "alice" b e) (refl, refl, refl, refl);
}

r1_named : ◌≢◌ {A = String} "r1" ""
r1_named e = ground (arith, e, eq_iff "r1" "")

abbrev after_hold : Store
after_hold = (check_and_reserve_budget digest noon "alice" (pos 3) (some "r1") start).1

reserved : Reach digest noon start after_hold
unfolding lookup
reserved = next here (reserve 100000 "alice" (pos 3) "r1" start r1_named refl)

lookup-after_hold :
    lookup "alice" after_hold.budgets
    ≡ some (record alice { spend_today = pos 7; spend_month = pos 7 })
unfolding lookup check_and_reserve_budget adjust ◌+ℤ◌
lookup-after_hold = refl

counters_add_up_example :
    (pos 7 ≡ pos 4 +ℤ (charged "alice" after_hold.requests +ℤ held "alice" after_hold.reservations))
    × (pos 7
        ≡ pos 4 +ℤ (charged "alice" after_hold.requests +ℤ held "alice" after_hold.reservations))
counters_add_up_example =
    counters_add_up digest noon (pos 4) (pos 4) "alice"
      (record alice { spend_today = pos 7; spend_month = pos 7 }) start-IsBalanced reserved
      lookup-after_hold

reclaim_refunds_example :
    let s' = (reclaim_stale_reservations 1000000 1000 abandoned).1 in
    (lookup "alice" s'.budgets
      ≡ some (record alice {
        spend_today =
            max_zero (pos 4 -ℤ owed_today 1000000 1000 "alice" alice abandoned.reservations);
        spend_month =
            max_zero (pos 4 -ℤ owed_this_month 1000000 1000 "alice" alice abandoned.reservations);
      }))
    × AllYoung 1000000 1000 s'.reservations
    × ((id : String) (h : Hold)
        → lookup id abandoned.reservations ≡ some h
        → 1000000 ≤ h.reserved_at + 1000
        → lookup id s'.reservations ≡ some h)
unfolding lookup
reclaim_refunds_example =
    reclaim_refunds 1000000 1000 abandoned "alice" alice refl (omega int_laws) (omega int_laws)
      (omega int_laws, tt)

check_rate_limit_refines_example :
    let limit = rate_of (lookup "alice" start.budgets) in
    let (r, s') = check_rate_limit digest 5 "alice" start in
    let (admitted, history') = admit limit "alice" 5 [] in
    (is_ok r ≡ admitted) × SameWindow 5 s'.rate_limit_log history' × (s'.budgets ≡ start.budgets)
check_rate_limit_refines_example =
    check_rate_limit_refines digest 5 "alice" start [] (λ key t le. refl)
