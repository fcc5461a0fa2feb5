-- ===== src/Ledger/Accounts/Examples.antt =====
-- A client's budget (gateway/ledger/store.py) through a reservation and its settlement.
use llm_gateway_with_cost_co.Prelude.{arith, int_laws, pos, some, ◌≡◌}
use llm_gateway_with_cost_co.Ledger.Accounts.Ceiling.{
  here, next, reserve, settle, AllBounded, Reach-AllBounded,
}
use llm_gateway_with_cost_co.Table.{lookup}
use llm_gateway_with_cost_co.Ledger.Requests.{record_request}
use llm_gateway_with_cost_co.Ledger.Examples.{start, alice, digest, spend, noon}
use llm_gateway_with_cost_co.Ledger.Budgets.{check_and_reserve_budget}

start-AllBounded : AllBounded start
unfolding lookup
start-AllBounded key b e =
    let same : b ≡ alice = ground arith in
    rw same record {
      daily = omega int_laws;
      monthly = omega int_laws;
      within = ((λ nz. omega int_laws), (λ nz. omega int_laws));
    }

Reach-AllBounded_example :
    AllBounded
      (record_request digest spend
        (check_and_reserve_budget digest noon "alice" (pos 3) (some "r1") start).1).1
Reach-AllBounded_example =
    Reach-AllBounded digest start-AllBounded
      (next (next here (reserve noon "alice" (pos 3) (some "r1"))) (settle spend (omega int_laws)))
