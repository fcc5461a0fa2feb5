-- ===== src/Ledger/Budgets/Limits.antt =====
-- What `check_and_reserve_budget` (gateway/ledger/store.py) admits and refuses.
use llm_gateway_with_cost_co.Prelude.{
  ◌≡◌, ◌≢◌, ◌⊎◌, false, Option, none, some, String, eq_iff, eq_refl, ℤ, ◌+ℤ◌, ◌≤ℤ◌, is_zero,
  if◌then◌else◌, arith, Option-cases, Bool-cases, inl, inr,
}
use llm_gateway_with_cost_co.Table.{lookup, adjust, lookup-adjust, lookup-adjust_ne, insert}
use llm_gateway_with_cost_co.Ledger.{
  Budget, Hold, Store, Clock, ok, err, no_budget, daily_exceeded, monthly_exceeded,
}
use llm_gateway_with_cost_co.Ledger.Budgets.{
  reset_periods, exceeds, check_and_reserve_budget, add_spend, write_periods,
}

-- A limit of NULL or 0 bounds nothing.
abbrev pub IsUnder : Option ℤ → ℤ → Type 0
IsUnder none spend = Unit
IsUnder (some limit) spend = is_zero limit ≡ false → spend ≤ℤ limit

abbrev pub IsWithin : Budget → Type 0
IsWithin b = IsUnder b.daily_limit_usd b.spend_today × IsUnder b.monthly_limit_usd b.spend_month

pub exceeds-IsUnder :
    (limit : Option ℤ) (spend : ℤ) → exceeds spend limit ≡ false → IsUnder limit spend
exceeds-IsUnder none spend h = tt
exceeds-IsUnder (some l) spend h = λ nz. ground arith

module _ (digest : String → String) (clock : Clock) (api_key : String) (estimated : ℤ)
    (id : Option String) (s : Store) where
  -- The client's row afterwards, on every branch.
  pub lookup-reserve :
      (row : Budget)
      → lookup (digest api_key) s.budgets ≡ some row
      → let b = reset_periods clock row in
        lookup
          (digest api_key)
          (check_and_reserve_budget digest clock api_key estimated id s).1.budgets
        ≡ (if exceeds (b.spend_today +ℤ estimated) b.daily_limit_usd
            then some b
            else if exceeds (b.spend_month +ℤ estimated) b.monthly_limit_usd
            then some b
            else some (add_spend estimated b))
  unfolding check_and_reserve_budget
  lookup-reserve row e =
      let key = digest api_key in
      let b = reset_periods clock row in
      let t = adjust key (write_periods b) s.budgets in
      ground (
        arith,
        e,
        eq_refl key,
        lookup-adjust key key (write_periods b) s.budgets,
        lookup-adjust key key (add_spend estimated) s.budgets,
        lookup-adjust key key (add_spend estimated) t,
      )

  -- A client with no row is refused, and nothing is written.
  pub reserve_unknown :
      lookup (digest api_key) s.budgets ≡ none
      → check_and_reserve_budget digest clock api_key estimated id s ≡ (err no_budget, s)
  unfolding check_and_reserve_budget
  reserve_unknown e = rw (e, check_and_reserve_budget)

  -- Another client's row is untouched.
  pub lookup-reserve_ne :
      (k : String)
      → digest api_key ≢ k
      → lookup k (check_and_reserve_budget digest clock api_key estimated id s).1.budgets
        ≡ lookup k s.budgets
  unfolding check_and_reserve_budget
  lookup-reserve_ne k ne = grind (arith, lookup-adjust_ne)

  -- For a client with a row: a reservation is admitted, the estimate stands in both counters of the
  -- row (reset for a new period) and neither counter passes its limit; or it is refused for the day
  -- or the month, the row is only reset, no hold is written, and with the estimate some counter
  -- would pass its limit. A limit of NULL or 0 is none.
  pub reserve_admits :
      (row : Budget)
      → lookup (digest api_key) s.budgets ≡ some row
      → let b = reset_periods clock row in
        let after = add_spend estimated b in
        let (r, s') = check_and_reserve_budget digest clock api_key estimated id s in
        ((r ≡ ok after) × (lookup (digest api_key) s'.budgets ≡ some after) × IsWithin after)
        ⊎ (((r ≡ err daily_exceeded) ⊎ (r ≡ err monthly_exceeded))
            × (lookup (digest api_key) s'.budgets ≡ some b)
            × (s'.reservations ≡ s.reservations)
            × (IsWithin after → ⊥))
  unfolding check_and_reserve_budget
  reserve_admits row e = ground (arith, e, lookup-reserve row e)

  pub requests-reserve :
      (check_and_reserve_budget digest clock api_key estimated id s).1.requests ≡ s.requests
  unfolding check_and_reserve_budget
  requests-reserve = ground arith

abbrev pub hold_for : String → Clock → ℤ → Budget → Hold
hold_for key clock estimated b = record {
  api_key = key;
  amount_usd = estimated;
  reset_date = b.last_reset_date;
  reset_month = b.last_reset_month;
  reserved_at = clock.now;
}

-- All that a reservation under an id may do.
pub data Outcome (key id : String) (clock : Clock) (estimated : ℤ) (s s' : Store) : Type 0 where
  unknown_client : s' ≡ s → Outcome key id clock estimated s s'
  refused :
      (row : Budget)
      → lookup key s.budgets ≡ some row
      → lookup key s'.budgets ≡ some (reset_periods clock row)
      → s'.reservations ≡ s.reservations
      → Outcome key id clock estimated s s'
  admitted :
      (row : Budget)
      → lookup key s.budgets ≡ some row
      → lookup key s'.budgets ≡ some (add_spend estimated (reset_periods clock row))
      → s'.reservations
        ≡ insert id (hold_for key clock estimated (reset_periods clock row)) s.reservations
      → Outcome key id clock estimated s s'

module _ (digest : String → String) (clock : Clock) (api_key : String) (estimated : ℤ) (id : String)
    (s : Store) where
  reservations-reserve :
      (row : Budget)
      → lookup (digest api_key) s.budgets ≡ some row
      → id ≢ ""
      → let b = reset_periods clock row in
        (check_and_reserve_budget digest clock api_key estimated (some id) s).1.reservations ≡ (
          if exceeds (b.spend_today +ℤ estimated) b.daily_limit_usd
          then s.reservations
          else if exceeds (b.spend_month +ℤ estimated) b.monthly_limit_usd
          then s.reservations
          else insert id (hold_for (digest api_key) clock estimated b) s.reservations)
  unfolding check_and_reserve_budget
  reservations-reserve row e ne = ground (arith, e, eq_iff id "")

  reserve_places :
      (row : Budget)
      → lookup (digest api_key) s.budgets ≡ some row
      → id ≢ ""
      → let b = reset_periods clock row in
        let (r, s') = check_and_reserve_budget digest clock api_key estimated (some id) s in
        ((r ≡ ok (add_spend estimated b))
          × (lookup (digest api_key) s'.budgets ≡ some (add_spend estimated b))
          × (s'.reservations
              ≡ insert id (hold_for (digest api_key) clock estimated b) s.reservations)
          × (s'.requests ≡ s.requests))
        ⊎ (((r ≡ err daily_exceeded) ⊎ (r ≡ err monthly_exceeded))
            × (lookup (digest api_key) s'.budgets ≡ some b)
            × (s'.reservations ≡ s.reservations)
            × (s'.requests ≡ s.requests))
  unfolding check_and_reserve_budget
  reserve_places row e ne =
      ground
        (arith, e, lookup-reserve digest clock api_key estimated (some id) s row e, eq_iff id "")

  -- An admission with the hold that it places, and a refusal.
  pub reserve_holds :
      (row : Budget)
      → lookup (digest api_key) s.budgets ≡ some row
      → id ≢ ""
      → let b = reset_periods clock row in
        let (r, s') = check_and_reserve_budget digest clock api_key estimated (some id) s in
        ((r ≡ ok (add_spend estimated b))
          × (lookup (digest api_key) s'.budgets ≡ some (add_spend estimated b))
          × (s'.reservations
              ≡ insert id (hold_for (digest api_key) clock estimated b) s.reservations)
          × (s'.requests ≡ s.requests)
          × IsWithin (add_spend estimated b))
        ⊎ (((r ≡ err daily_exceeded) ⊎ (r ≡ err monthly_exceeded))
            × (lookup (digest api_key) s'.budgets ≡ some b)
            × (s'.reservations ≡ s.reservations)
            × (s'.requests ≡ s.requests)
            × (IsWithin (add_spend estimated b) → ⊥))
  reserve_holds row e ne = elim (reserve_admits digest clock api_key estimated (some id) s row e) [
    | inl (admitted_now, after, within) ↦ elim (reserve_places row e ne) [
      | inl (r, placed, hold, same) ↦ inl (r, placed, hold, same, within)
      | inr (inl daily, placed, same_holds, same) ↦ absurd (ground (arith, admitted_now, daily))
      | inr (inr monthly, placed, same_holds, same) ↦ absurd (ground (arith, admitted_now, monthly))
    ]
    | inr (why, after, holds, over) ↦ elim (reserve_places row e ne) [
      | inl (r, placed, hold, same) ↦ absurd (ground (arith, r, why))
      | inr (which, placed, same_holds, same) ↦ inr (which, placed, same_holds, same, over)
    ]
  ]

  pub reserve-Outcome :
      id ≢ ""
      → Outcome
          (digest api_key)
          id
          clock
          estimated
          s
          (check_and_reserve_budget digest clock api_key estimated (some id) s).1
  reserve-Outcome ne = elim (Option-cases (lookup (digest api_key) s.budgets)) [
    | inl e ↦ unknown_client (unfold check_and_reserve_budget in rw (e, check_and_reserve_budget))
    | inr (row, e) ↦
        let b = reset_periods clock row in
        let facts = lookup-reserve digest clock api_key estimated (some id) s row e in
        let holds = reservations-reserve row e ne in
        elim (Bool-cases (exceeds (b.spend_today +ℤ estimated) b.daily_limit_usd)) [
          | inl over ↦ refused row e (rw over at facts) (rw over at holds)
          | inr under ↦
              elim (Bool-cases (exceeds (b.spend_month +ℤ estimated) b.monthly_limit_usd)) [
                | inl over ↦ refused row e (rw (under, over) at facts) (rw (under, over) at holds)
                | inr fits ↦ admitted row e (rw (under, fits) at facts) (rw (under, fits) at holds)
              ]
        ]
  ]

-- A row that is stamped for the period is not reset.
pub reset_periods_current :
    (clock : Clock) (b : Budget)
    → b.last_reset_date ≡ some clock.today
    → b.last_reset_month ≡ some clock.month
    → reset_periods clock b ≡ b
unfolding reset_periods
reset_periods_current clock b d m = ground (arith, eq_refl clock.today, eq_refl clock.month)
