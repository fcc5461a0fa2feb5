-- ===== src/Ledger/Budgets/Reads.antt =====
-- What `get_budget` (gateway/ledger/store.py) writes: it starts a new period and nothing else.
use mathlib.Core.Option
use llm_gateway_with_cost_co.Prelude.{
  String, ◌≡◌, arith, if◌then◌else◌, str_eq, eq_refl, Option-cases, inl, eq_iff, inr,
}
use llm_gateway_with_cost_co.Ledger.{Clock, Store}
use llm_gateway_with_cost_co.Ledger.Budgets.{get_budget, reset_periods, write_periods}
use llm_gateway_with_cost_co.Table.{lookup, lookup-adjust}

module _ (digest : String → String) (clock : Clock) (api_key : String) (s : Store) where
  -- The client's row is reset for the period, and no other row changes.
  pub lookup-get_budget :
      (key : String)
      → lookup key (get_budget digest clock api_key s).1.budgets ≡ (
          if str_eq (digest api_key) key
          then Option.map (reset_periods clock) (lookup key s.budgets)
          else lookup key s.budgets)
  unfolding get_budget
  lookup-get_budget key = elim (Option-cases (lookup (digest api_key) s.budgets)) [
    | inl e ↦ ground (arith, eq_iff (digest api_key) key)
    | inr (b, e) ↦ ground (
      arith,
      eq_iff (digest api_key) key,
      lookup-adjust (digest api_key) key (write_periods (reset_periods clock b)) s.budgets,
    )
  ]

  pub get_budget_keeps :
      ((get_budget digest clock api_key s).1.requests ≡ s.requests)
      × ((get_budget digest clock api_key s).1.reservations ≡ s.reservations)
  unfolding get_budget
  get_budget_keeps = ground arith

  -- A read returns the row as it stands afterwards.
  pub get_budget_returns :
      (get_budget digest clock api_key s).0
      ≡ lookup (digest api_key) (get_budget digest clock api_key s).1.budgets
  unfolding get_budget
  get_budget_returns = ground (arith, lookup-get_budget (digest api_key), eq_refl (digest api_key))
