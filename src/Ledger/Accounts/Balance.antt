-- ===== src/Ledger/Accounts/Balance.antt =====
-- Within one UTC day the counters of gateway/ledger/store.py account for every hold and every
-- recorded cost, whatever the interleaving of the clients' requests.
use mathlib.Core.Option
use llm_gateway_with_cost_co.Prelude.{
  ℕ, ◌≡◌, sym, ◌∙◌, ◌≢◌, none, some, String, eq_iff, ℤ, pos, ◌+ℤ◌, ◌-ℤ◌, arith, int_laws,
  Option-cases, inl, inr, str_eq, +ℤ_assoc, +ℤ-zero, if◌then◌else◌,
}
use llm_gateway_with_cost_co.Table.{lookup, insert, lookup-adjust}
use llm_gateway_with_cost_co.Ledger.{Budget, Hold, Store, Clock}
use llm_gateway_with_cost_co.Ledger.Budgets.{
  check_and_reserve_budget, get_budget, add_spend, reset_periods,
}
use llm_gateway_with_cost_co.Ledger.Budgets.Limits.{
  lookup-reserve_ne, Outcome, unknown_client, refused, reset_periods_current, admitted, hold_for,
  requests-reserve, reserve-Outcome,
}
use llm_gateway_with_cost_co.Ledger.Requests.{Spend, record_request, row_of, write_request}
use llm_gateway_with_cost_co.Ledger.Accounts.{owed, IsKeyed, held, charged}
use llm_gateway_with_cost_co.Ledger.Accounts.Sums.{
  charged-insert, held-insert, held-remove, insert-IsKeyed, remove-IsKeyed, amount_of,
}
use llm_gateway_with_cost_co.Ledger.Budgets.Reads.{get_budget_keeps, lookup-get_budget}

-- The client's row is stamped for the period, and each counter is what it was at the beginning
-- plus what has been recorded and what is held since.
pub record IsBalanced (clock : Clock) (day month : ℤ) (key : String) (s : Store) : Type 0 where
  pub keyed : IsKeyed s.reservations
  pub row :
      (b : Budget)
      → lookup key s.budgets ≡ some b
      → (b.last_reset_date ≡ some clock.today)
        × (b.last_reset_month ≡ some clock.month)
        × (b.spend_today ≡ day +ℤ owed key s)
        × (b.spend_month ≡ month +ℤ owed key s)

-- A settlement is of the hold that was placed: same client, same amount.
abbrev pub Settles : (String → String) → Spend → Hold → Type 0
Settles digest x h = (h.api_key ≡ digest x.api_key) × (h.amount_usd ≡ x.reserved_cost)

-- What clients may do within the period.
pub data Step (digest : String → String) (clock : Clock) : Store → Store → Type 0 where
  reserve :
      (now : ℕ) (api_key : String) (cost : ℤ) (id : String) (s : Store)
      → id ≢ ""
      → lookup id s.reservations ≡ none
      → Step digest clock s
          (check_and_reserve_budget digest (record clock { now = now }) api_key cost (some id) s).1
  settle :
      (x : Spend) (h : Hold) (s : Store)
      → lookup x.req_id s.reservations ≡ some h
      → Settles digest x h
      → Step digest clock s (record_request digest x s).1
  read : (api_key : String) (s : Store) → Step digest clock s (get_budget digest clock api_key s).1

module _ (digest : String → String) (clock : Clock) (day month : ℤ) (key : String) where
  row_kept :
      (s s' : Store)
      → IsBalanced clock day month key s
      → IsKeyed s'.reservations
      → lookup key s'.budgets ≡ lookup key s.budgets
      → owed key s' ≡ owed key s
      → IsBalanced clock day month key s'
  row_kept s s' h k same sum = record { keyed = k; row = λ b e. rw sum (h.row b (sym same ∙ e)) }

  owed_placed :
      (id : String) (hold : Hold) (s s' : Store)
      → lookup id s.reservations ≡ none
      → s'.requests ≡ s.requests
      → s'.reservations ≡ insert id hold s.reservations
      → owed key s' ≡ owed key s +ℤ amount_of key hold
  owed_placed id hold s s' absent same holds =
      rw (same, holds, held-insert key id hold s.reservations absent) (sym (+ℤ_assoc _ _ _))

  Outcome-IsBalanced :
      (now : ℕ) (k : String) (cost : ℤ) (id : String) (s s' : Store)
      → lookup id s.reservations ≡ none
      → s'.requests ≡ s.requests
      → (k ≢ key → lookup key s'.budgets ≡ lookup key s.budgets)
      → Outcome k id (record clock { now = now }) cost s s'
      → IsBalanced clock day month key s
      → IsBalanced clock day month key s'
  unfolding add_spend
  Outcome-IsBalanced now k cost id s s' absent same others (unknown_client e) h = rw e h
  Outcome-IsBalanced now k cost id s s' absent same others (refused row found after holds) h =
      record {
        keyed = rw holds h.keyed;
        row = λ b e. ground (
          arith,
          eq_iff k key,
          reset_periods_current (record clock { now = now }) row,
          h.row row,
          h.row b,
        );
      }
  Outcome-IsBalanced now k cost id s s' absent same others (admitted row found after holds) h =
      record {
        keyed = rw holds (insert-IsKeyed id _ s.reservations h.keyed);
        row = λ b e.
            let c = record clock { now = now } in
            let hold = hold_for k c cost (reset_periods c row) in
            ground (
              arith,
              eq_iff k key,
              reset_periods_current c row,
              h.row row,
              h.row b,
              owed_placed id hold s s',
              +ℤ_assoc day (owed key s) cost,
              +ℤ_assoc month (owed key s) cost,
              +ℤ-zero (owed key s),
            );
      }

  pub reserve-IsBalanced :
      (now : ℕ) (api_key : String) (cost : ℤ) (id : String) (s : Store)
      → id ≢ ""
      → lookup id s.reservations ≡ none
      → IsBalanced clock day month key s
      → IsBalanced clock day month key
          (check_and_reserve_budget digest (record clock { now = now }) api_key cost (some id) s).1
  reserve-IsBalanced now api_key cost id s ne absent h =
      let c = record clock { now = now } in
      Outcome-IsBalanced now (digest api_key) cost id s _ absent
        (requests-reserve digest c api_key cost (some id) s)
        (lookup-reserve_ne digest c api_key cost (some id) s key)
        (reserve-Outcome digest c api_key cost id s ne) h

  owed_settled :
      (x : Spend) (h : Hold) (s : Store)
      → IsKeyed s.reservations
      → lookup x.req_id s.reservations ≡ some h
      → Settles digest x h
      → lookup x.req_id s.requests ≡ none
      → owed key (write_request digest x s)
        ≡ owed key s +ℤ (if str_eq (digest x.api_key) key then x.cost -ℤ x.reserved_cost else pos 0)
  unfolding write_request
  owed_settled x h s k found match fresh = grind (
    int_laws,
    charged-insert key x.req_id (row_of digest x) s.requests fresh,
    held-remove key x.req_id h s.reservations k found,
  )

  settled_row :
      (x : Spend) (s : Store)
      → lookup key (write_request digest x s).budgets ≡ (
          if str_eq (digest x.api_key) key
          then Option.map (add_spend (x.cost -ℤ x.reserved_cost)) (lookup key s.budgets)
          else lookup key s.budgets)
  unfolding write_request
  settled_row x s = lookup-adjust (digest x.api_key) key _ s.budgets

  written-IsBalanced :
      (x : Spend) (h : Hold) (s : Store)
      → lookup x.req_id s.reservations ≡ some h
      → Settles digest x h
      → lookup x.req_id s.requests ≡ none
      → IsBalanced clock day month key s
      → IsBalanced clock day month key (write_request digest x s)
  unfolding add_spend
  written-IsBalanced x h s found match absent bal = record {
    keyed = unfold write_request in remove-IsKeyed x.req_id s.reservations bal.keyed;
    row = λ b f. elim (Option-cases (lookup key s.budgets)) [
      | inl no_row ↦ ground (arith, settled_row x s)
      | inr (row, e) ↦
          let delta = x.cost -ℤ x.reserved_cost in
          ground (
            arith,
            settled_row x s,
            owed_settled x h s bal.keyed,
            bal.row row,
            +ℤ_assoc day (owed key s) delta,
            +ℤ_assoc month (owed key s) delta,
            +ℤ-zero (owed key s),
          )
    ];
  }

  pub settle-IsBalanced :
      (x : Spend) (h : Hold) (s : Store)
      → lookup x.req_id s.reservations ≡ some h
      → Settles digest x h
      → IsBalanced clock day month key s
      → IsBalanced clock day month key (record_request digest x s).1
  settle-IsBalanced x h s found match bal = elim (Option-cases (lookup x.req_id s.requests)) [
    | inr (r, e) ↦ unfold record_request in rw (e, record_request) bal
    | inl e ↦
        unfold record_request in rw (e, record_request) (written-IsBalanced x h s found match e bal)
  ]

  read-IsBalanced :
      (api_key : String) (s : Store)
      → IsBalanced clock day month key s
      → IsBalanced clock day month key (get_budget digest clock api_key s).1
  read-IsBalanced api_key s bal = record {
    keyed = rw (get_budget_keeps digest clock api_key s).1 bal.keyed;
    row = λ b e. elim (Option-cases (lookup key s.budgets)) [
      | inl no_row ↦ ground (arith, lookup-get_budget digest clock api_key s key)
      | inr (row, f) ↦ ground (
        arith,
        lookup-get_budget digest clock api_key s key,
        get_budget_keeps digest clock api_key s,
        bal.row row,
        reset_periods_current clock row,
      )
    ];
  }

  Step-IsBalanced :
      {s t : Store}
      → Step digest clock s t
      → IsBalanced clock day month key s
      → IsBalanced clock day month key t
  Step-IsBalanced (reserve now k cost id s ne absent) h =
      reserve-IsBalanced now k cost id s ne absent h
  Step-IsBalanced (settle x hold s found match) h = settle-IsBalanced x hold s found match h
  Step-IsBalanced (read k s) h = read-IsBalanced k s h

pub data Reach (digest : String → String) (clock : Clock) (s : Store) : Store → Type 0 where
  here : Reach digest clock s s
  next : {t u : Store} → Reach digest clock s t → Step digest clock t u → Reach digest clock s u

module _ (digest : String → String) (clock : Clock) (day month : ℤ) (key : String) where
  pub Reach-IsBalanced :
      {s t : Store}
      → IsBalanced clock day month key s
      → Reach digest clock s t
      → IsBalanced clock day month key t
  Reach-IsBalanced h here = h
  Reach-IsBalanced h (next r st) =
      Step-IsBalanced digest clock day month key st (Reach-IsBalanced h r)

  -- From a balanced account, however the clients' reservations, settlements and reads are
  -- interleaved within the day, the client's day counter is its first value plus all costs
  -- recorded and all holds open, and so is its month counter.
  pub counters_add_up :
      {s t : Store} (b : Budget)
      → IsBalanced clock day month key s
      → Reach digest clock s t
      → lookup key t.budgets ≡ some b
      → (b.spend_today ≡ day +ℤ (charged key t.requests +ℤ held key t.reservations))
        × (b.spend_month ≡ month +ℤ (charged key t.requests +ℤ held key t.reservations))
  counters_add_up {t = t} b h r e = let row = (Reach-IsBalanced h r).row b e in (row.2, row.3)
