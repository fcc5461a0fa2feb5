-- ===== src/Ledger/Accounts/Ceiling.antt =====
-- No interleaving of reservations, settlements within their holds and reads takes a client of
-- gateway/ledger/store.py past a budget, over any days.
use llm_gateway_with_cost_co.Ledger.Budgets.{
  reset_periods, get_budget, check_and_reserve_budget, add_spend, exceeds,
}
use llm_gateway_with_cost_co.Prelude.{
  Option, String, ℤ, some, ◌≡◌, ◌≤ℤ◌, arith, pos, Option-cases, inl, inr, ◌-ℤ◌, int_laws,
  Bool-cases, none, str_eq, ◌+ℤ◌, eq_iff, false,
}
use llm_gateway_with_cost_co.Ledger.{Store, Budget, Clock}
use llm_gateway_with_cost_co.Ledger.Budgets.Limits.{
  IsWithin, IsUnder, lookup-reserve, exceeds-IsUnder, lookup-reserve_ne, reserve_unknown,
}
use llm_gateway_with_cost_co.Table.{lookup, lookup-adjust}
use llm_gateway_with_cost_co.Ledger.Requests.{record_request, Spend}
use llm_gateway_with_cost_co.Ledger.Budgets.Reads.{lookup-get_budget}

abbrev pub IsCap : Option ℤ → Type 0
IsCap none = Unit
IsCap (some limit) = pos 0 ≤ℤ limit

-- The limits are not negative, and neither counter has passed its limit.
pub record IsBounded (b : Budget) : Type 0 where
  pub daily : IsCap b.daily_limit_usd
  pub monthly : IsCap b.monthly_limit_usd
  pub within : IsWithin b

-- The steps, at any clock reading; a settlement costs at most what it had reserved.
pub data Step (digest : String → String) (s : Store) : Store → Type 0 where
  reserve :
      (clock : Clock) (api_key : String) (cost : ℤ) (id : Option String)
      → Step digest s (check_and_reserve_budget digest clock api_key cost id s).1
  settle : (x : Spend) → x.cost ≤ℤ x.reserved_cost → Step digest s (record_request digest x s).1
  read : (clock : Clock) (api_key : String) → Step digest s (get_budget digest clock api_key s).1

pub data Reach (digest : String → String) (s : Store) : Store → Type 0 where
  here : Reach digest s s
  next : {t u : Store} → Reach digest s t → Step digest t u → Reach digest s u

reset-IsBounded : (clock : Clock) (b : Budget) → IsBounded b → IsBounded (reset_periods clock b)
unfolding reset_periods
reset-IsBounded clock b h = ground arith

IsUnder-less :
    (limit : Option ℤ) (spend less : ℤ) → less ≤ℤ spend → IsUnder limit spend → IsUnder limit less
IsUnder-less none spend less le h = tt
IsUnder-less (some l) spend less le h = λ nz. omega (arith, h nz)

abbrev pub AllBounded : Store → Type 0
AllBounded s = (key : String) (b : Budget) → lookup key s.budgets ≡ some b → IsBounded b

admitted-IsBounded :
    (cost : ℤ) (b : Budget)
    → IsBounded b
    → exceeds (b.spend_today +ℤ cost) b.daily_limit_usd ≡ false
    → exceeds (b.spend_month +ℤ cost) b.monthly_limit_usd ≡ false
    → IsBounded (add_spend cost b)
unfolding add_spend
admitted-IsBounded cost b h d m = record {
  daily = h.daily;
  monthly = h.monthly;
  within = (exceeds-IsUnder _ _ d, exceeds-IsUnder _ _ m);
}

settled-IsBounded :
    (delta : ℤ) (b : Budget) → delta ≤ℤ pos 0 → IsBounded b → IsBounded (add_spend delta b)
unfolding add_spend
settled-IsBounded delta b le h = record {
  daily = h.daily;
  monthly = h.monthly;
  within = (
    IsUnder-less _ b.spend_today _ (omega int_laws) h.within.0,
    IsUnder-less _ b.spend_month _ (omega int_laws) h.within.1,
  );
}

module _ (digest : String → String) where
  reserve-AllBounded :
      (clock : Clock) (api_key : String) (cost : ℤ) (id : Option String) (s : Store)
      → AllBounded s
      → AllBounded (check_and_reserve_budget digest clock api_key cost id s).1
  reserve-AllBounded clock api_key cost id s h key b e =
      elim (Bool-cases (str_eq (digest api_key) key)) [
        | inl mine ↦ elim (Option-cases (lookup (digest api_key) s.budgets)) [
          | inl no_row ↦ ground (
            arith,
            eq_iff (digest api_key) key,
            reserve_unknown digest clock api_key cost id s no_row,
          )
          | inr (row, f) ↦
              let r = reset_periods clock row in
              ground (
                arith,
                eq_iff (digest api_key) key,
                lookup-reserve digest clock api_key cost id s row f,
                h (digest api_key) row f,
                reset-IsBounded clock row (h (digest api_key) row f),
                admitted-IsBounded cost r (reset-IsBounded clock row (h (digest api_key) row f)),
              )
        ]
        | inr other ↦ ground (
          arith,
          eq_iff (digest api_key) key,
          lookup-reserve_ne digest clock api_key cost id s key,
          h key b,
        )
      ]

  settle-AllBounded :
      (x : Spend) (s : Store)
      → x.cost ≤ℤ x.reserved_cost
      → AllBounded s
      → AllBounded (record_request digest x s).1
  unfolding record_request
  settle-AllBounded x s le h key b e =
      let delta = x.cost -ℤ x.reserved_cost in
      let law = lookup-adjust (digest x.api_key) key (add_spend delta) s.budgets in
      elim (Option-cases (lookup key s.budgets)) [
        | inl none_there ↦ ground (arith, law)
        | inr (row, f) ↦
            ground
              (arith, law, h key row f, settled-IsBounded delta row (omega int_laws) (h key row f))
      ]

  read-AllBounded :
      (clock : Clock) (api_key : String) (s : Store)
      → AllBounded s
      → AllBounded (get_budget digest clock api_key s).1
  read-AllBounded clock api_key s h key b e = elim (Option-cases (lookup key s.budgets)) [
    | inl none_there ↦ ground (arith, lookup-get_budget digest clock api_key s key)
    | inr (row, f) ↦ ground (
      arith,
      lookup-get_budget digest clock api_key s key,
      h key row f,
      reset-IsBounded clock row (h key row f),
    )
  ]

  Step-AllBounded : {s t : Store} → Step digest s t → AllBounded s → AllBounded t
  Step-AllBounded {s} (reserve clock k cost id) h = reserve-AllBounded clock k cost id s h
  Step-AllBounded {s} (settle x le) h = settle-AllBounded x s le h
  Step-AllBounded {s} (read clock k) h = read-AllBounded clock k s h

  -- From a store whose rows are within non-negative limits, every store that any interleaving of
  -- reservations (at any cost and time, by any client), settlements that cost at most what was
  -- reserved, and reads can reach has every row within its daily and its monthly limit.
  pub Reach-AllBounded : {s t : Store} → AllBounded s → Reach digest s t → AllBounded t
  Reach-AllBounded h here = h
  Reach-AllBounded h (next r st) = Step-AllBounded st (Reach-AllBounded h r)
