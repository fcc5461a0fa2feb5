-- ===== src/Ledger/Budgets.antt =====
-- The budget methods of gateway/ledger/store.py. Each runs under the write lock, so it is one
-- step: it takes the store and returns the store beside its result. `digest` is `hash_api_key`.
pub mod Limits
pub mod Reads
use llm_gateway_with_cost_co.Prelude.{
  ◌≡◌, Bool, true, false, not, ◌&&◌, ◌||◌, Option, none, some, List, [], ◌∷◌, String, str_eq, ℤ,
  pos, ◌+ℤ◌, ltb_ℤ, is_zero, if◌then◌else◌, get_or, is_some,
}
use llm_gateway_with_cost_co.Table.{Table, lookup, insert, adjust}
use llm_gateway_with_cost_co.Ledger.{
  Budget, Hold, Store, Clock, Error, Result, ok, err, no_budget, daily_exceeded, monthly_exceeded,
}
use llm_gateway_with_cost_co.Ledger.Keys.{prefix, key_prefix_len}

-- `stamp == text`, where the column may be NULL
abbrev pub is_stamped : Option String → String → Bool
is_stamped none text = false
is_stamped (some s) text = str_eq s text

-- The two tests for a new day and a new month, on a row that was read.
reset_day : Clock → Budget → Budget
reset_day clock b =
    if is_stamped b.last_reset_date clock.today
    then b
    else record b { spend_today = pos 0; last_reset_date = some clock.today }

reset_month : Clock → Budget → Budget
reset_month clock b =
    if is_stamped b.last_reset_month clock.month
    then b
    else record b { spend_month = pos 0; last_reset_month = some clock.month }

unfoldable pub reset_periods : Clock → Budget → Budget
unfolding reset_day reset_month
reset_periods clock b = reset_month clock (reset_day clock b)

pub needs_reset : Clock → Budget → Bool
needs_reset clock b =
    not (is_stamped b.last_reset_date clock.today)
    || not (is_stamped b.last_reset_month clock.month)

-- `UPDATE budgets SET spend_today, last_reset_date, spend_month, last_reset_month`
pub write_periods : Budget → Budget → Budget
write_periods b row = record row {
  spend_today = b.spend_today;
  last_reset_date = b.last_reset_date;
  spend_month = b.spend_month;
  last_reset_month = b.last_reset_month;
}

-- `limit and projected > limit`: NULL and 0 are falsy, so neither limits anything.
abbrev pub exceeds : ℤ → Option ℤ → Bool
exceeds projected none = false
exceeds projected (some limit) = not (is_zero limit) && ltb_ℤ limit projected

-- `if request_id:` writes the hold; NULL and the empty text write none.
pub place_hold : Option String → Hold → Table Hold → Table Hold
place_hold none hold t = t
place_hold (some id) hold t = if str_eq id "" then t else insert id hold t

unfoldable pub add_spend : ℤ → Budget → Budget
add_spend amount b = record b {
  spend_today = b.spend_today +ℤ amount;
  spend_month = b.spend_month +ℤ amount;
}

-- An entry of the budgets file, its key in the clear; `none` is an absent `requests_per_minute`.
pub record BudgetConfig : Type 0 where
  pub api_key : String
  pub daily_limit_usd : Option ℤ
  pub monthly_limit_usd : Option ℤ
  pub requests_per_minute : Option ℤ

abbrev pub default_rpm : ℤ
default_rpm = pos 60

module _ (digest : String → String) where
  -- `INSERT ... ON CONFLICT(api_key) DO UPDATE`: spend and period stamps of a known row stay.
  pub load_budget : Clock → BudgetConfig → Store → Store
  load_budget clock c s =
      let key = digest c.api_key in
      let rpm : Option ℤ = some (get_or c.requests_per_minute default_rpm) in
      if is_some (lookup key s.budgets)
      then record s {
        budgets =
            adjust key
              (λ b. record b {
                daily_limit_usd = c.daily_limit_usd;
                monthly_limit_usd = c.monthly_limit_usd;
                requests_per_minute = rpm;
              })
              s.budgets;
      }
      else record s {
        budgets =
            insert key
              (record {
                key_prefix = some (prefix key_prefix_len c.api_key);
                daily_limit_usd = c.daily_limit_usd;
                monthly_limit_usd = c.monthly_limit_usd;
                spend_today = pos 0;
                spend_month = pos 0;
                last_reset_date = some clock.today;
                last_reset_month = some clock.month;
                requests_per_minute = rpm;
              })
              s.budgets;
      }

  pub load_budgets_from_config : Clock → List BudgetConfig → Store → Store
  load_budgets_from_config clock [] s = s
  load_budgets_from_config clock (c ∷ cs) s =
      load_budgets_from_config clock cs (load_budget clock c s)

  -- A read outside the lock, and a write only where a period has ended.
  pub get_budget : Clock → String → Store → Option Budget × Store
  unfolding reset_periods needs_reset write_periods
  get_budget clock api_key s =
      let key = digest api_key in
      elim (lookup key s.budgets) [
        | none ↦ (none, s)
        | some b ↦
            let fresh = reset_periods clock b in
            if needs_reset clock b
            then (some fresh, record s { budgets = adjust key (write_periods fresh) s.budgets })
            else (some b, s)
      ]

  -- True for an update, false for a new row.
  pub update_budget_limits : String → ℤ → ℤ → Option ℤ → Store → Bool × Store
  update_budget_limits api_key daily monthly rpm s =
      let key = digest api_key in
      elim (lookup key s.budgets) [
        | some row ↦ (
          true,
          record s {
            budgets =
                adjust key
                  (λ b. record b {
                    daily_limit_usd = some daily;
                    monthly_limit_usd = some monthly;
                    requests_per_minute = if is_some rpm then rpm else row.requests_per_minute;
                  })
                  s.budgets;
          },
        )
        | none ↦ (
          false,
          record s {
            budgets =
                insert key
                  (record {
                    key_prefix = some (prefix key_prefix_len api_key);
                    daily_limit_usd = some daily;
                    monthly_limit_usd = some monthly;
                    spend_today = pos 0;
                    spend_month = pos 0;
                    last_reset_date = none;
                    last_reset_month = none;
                    requests_per_minute = some (get_or rpm default_rpm);
                  })
                  s.budgets;
          },
        )
      ]

  -- What is left to do once the row is read: reset, check, reserve. A refusal keeps the reset.
  pub reserve_on : Clock → String → ℤ → Option String → Budget → Store → Result Budget × Store
  unfolding reset_periods needs_reset write_periods place_hold add_spend
  reserve_on clock key estimated request_id row s =
      let budget = reset_periods clock row in
      let s' =
        if needs_reset clock row
        then record s { budgets = adjust key (write_periods budget) s.budgets }
        else s in
      let daily = budget.spend_today +ℤ estimated in
      let monthly = budget.spend_month +ℤ estimated in
      if exceeds daily budget.daily_limit_usd
      then (err daily_exceeded, s')
      else if exceeds monthly budget.monthly_limit_usd
      then (err monthly_exceeded, s')
      else (
        ok (record budget { spend_today = daily; spend_month = monthly }),
        record s' {
          budgets = adjust key (add_spend estimated) s'.budgets;
          reservations =
              place_hold request_id
                (record {
                  api_key = key;
                  amount_usd = estimated;
                  reset_date = budget.last_reset_date;
                  reset_month = budget.last_reset_month;
                  reserved_at = clock.now;
                })
                s'.reservations;
        },
      )

  unfoldable pub check_and_reserve_budget :
      Clock → String → ℤ → Option String → Store → Result Budget × Store
  unfolding reserve_on
  check_and_reserve_budget clock api_key estimated request_id s =
      let key = digest api_key in
      elim (lookup key s.budgets) [
        | none ↦ (err no_budget, s)
        | some row ↦ reserve_on clock key estimated request_id row s
      ]
