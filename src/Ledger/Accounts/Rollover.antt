-- ===== src/Ledger/Accounts/Rollover.antt =====
-- A hold that is settled after the counters of gateway/ledger/store.py were reset.
use llm_gateway_with_cost_co.Prelude.{
  String, ◌≡◌, some, false, none, ◌≤ℤ◌, ◌-ℤ◌, pos, arith, eq_refl, -ℤ_parts, pos-zero_add,
}
use llm_gateway_with_cost_co.Ledger.{Clock, Store, Budget}
use llm_gateway_with_cost_co.Ledger.Requests.{Spend, record_request, budgets-record}
use llm_gateway_with_cost_co.Table.{lookup}
use llm_gateway_with_cost_co.Ledger.Budgets.{is_stamped, get_budget, reset_periods, add_spend}
use llm_gateway_with_cost_co.Ledger.Budgets.Reads.{get_budget_keeps, lookup-get_budget}

module _ (digest : String → String) (clock : Clock) (x : Spend) (s : Store) where
  -- If the client's row was stamped for another day, a read resets it, and then the settlement of
  -- a hold taken before the reset, at a cost below the hold, leaves a negative day counter: the
  -- hold is taken off a counter that no longer carries it.
  pub late_settlement :
      (b : Budget)
      → lookup (digest x.api_key) s.budgets ≡ some b
      → is_stamped b.last_reset_date clock.today ≡ false
      → lookup x.req_id s.requests ≡ none
      → (x.reserved_cost ≤ℤ x.cost → ⊥)
      → (row : Budget) × (lookup
            (digest x.api_key)
            (record_request digest x (get_budget digest clock x.api_key s).1).1.budgets
          ≡ some row)
        × (row.spend_today ≡ x.cost -ℤ x.reserved_cost)
        × (pos 0 ≤ℤ row.spend_today → ⊥)
  unfolding reset_periods add_spend
  late_settlement b e old fresh less =
      let t = (get_budget digest clock x.api_key s).1 in
      let key = digest x.api_key in
      let kept = get_budget_keeps digest clock x.api_key s in
      let delta = x.cost -ℤ x.reserved_cost in
      let zeroed = pos-zero_add delta in
      (
        add_spend delta (reset_periods clock b),
        ground (
          arith,
          e,
          kept,
          budgets-record digest key x t,
          lookup-get_budget digest clock x.api_key s key,
          eq_refl key,
        ),
        ground (arith, zeroed),
        ground (arith, zeroed, -ℤ_parts x.cost x.reserved_cost),
      )
