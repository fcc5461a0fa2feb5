-- ===== src/Gateway/Settlement.antt =====
-- How a record settles the hold of its request (gateway/ledger/store.py, gateway/main.py).
use llm_gateway_with_cost_co.Prelude.{
  int_laws, String, none, refl, some, ℤ, ◌+ℤ◌, ◌-ℤ◌, ◌∙◌, ◌≡◌, ap, eq_refl,
}
use llm_gateway_with_cost_co.Ledger.{Clock, Budget, RequestRow, Store}
use llm_gateway_with_cost_co.Ledger.Budgets.{add_spend}
use llm_gateway_with_cost_co.Table.{lookup, lookup-remove_self, lookup-insert_self}
use llm_gateway_with_cost_co.Ledger.Budgets.Limits.{hold_for}
use llm_gateway_with_cost_co.Ledger.Requests.{record_request, row_of, budgets-record, Spend}

settle_back : (x e c : ℤ) → (x +ℤ e) +ℤ (c -ℤ e) ≡ x +ℤ c
settle_back x e c = omega int_laws

-- A settlement replaces the reserved amount by the cost.
add_spend_twice : (e c : ℤ) (b : Budget) → add_spend (c -ℤ e) (add_spend e b) ≡ add_spend c b
unfolding add_spend
add_spend_twice e c b = rw (settle_back b.spend_today e c, settle_back b.spend_month e c) refl

-- The client's row and the request's own rows.
abbrev pub IsCharged : String → String → ℤ → Budget → RequestRow → Store → Type 0
IsCharged key id cost fresh row s =
    (lookup key s.budgets ≡ some (add_spend cost fresh))
    × (lookup id s.reservations ≡ none)
    × (lookup id s.requests ≡ some row)

abbrev pub IsHeld : String → String → Clock → ℤ → Budget → Store → Type 0
IsHeld key id clock cost fresh s =
    (lookup key s.budgets ≡ some (add_spend cost fresh))
    × (lookup id s.reservations ≡ some (hold_for key clock cost fresh))
    × (lookup id s.requests ≡ none)

-- A record settles its own hold.
pub spend_charges :
    (digest : String → String) (clock : Clock) (x : Spend) (b : Budget) (s : Store)
    → IsHeld (digest x.api_key) x.req_id clock x.reserved_cost b s
    → IsCharged (digest x.api_key) x.req_id x.cost b (row_of digest x) (record_request digest x s).1
unfolding record_request
spend_charges digest clock x b s h =
    let key = digest x.api_key in
    (
      budgets-record digest key x s h.2
          ∙ rw (eq_refl key, h.0)
              (ap (λ (y : Budget). some y) (add_spend_twice x.reserved_cost x.cost b)),
      rw (h.2, record_request) (lookup-remove_self x.req_id s.reservations),
      rw (h.2, record_request) (lookup-insert_self x.req_id (row_of digest x) s.requests),
    )
