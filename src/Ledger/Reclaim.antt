-- ===== src/Ledger/Reclaim.antt =====
-- `reclaim_stale_reservations` (gateway/ledger/store.py): holds whose process died are given back.
pub mod Steps
pub mod Refunds
use llm_gateway_with_cost_co.Prelude.{
  ℕ, ◌+◌, Bool, true, false, not, ◌&&◌, Option, none, some, List, [], ◌∷◌, String, str_eq, ℤ, pos,
  ◌+ℤ◌, ◌-ℤ◌, ltb, is_zero, max_zero, if◌then◌else◌, length,
}
use llm_gateway_with_cost_co.Table.{Table, lookup, adjust}
use llm_gateway_with_cost_co.Ledger.{Budget, Hold, Store}

-- `a == b` on period stamps, where NULL is `None`
abbrev pub same_stamp : Option String → Option String → Bool
same_stamp none none = true
same_stamp (some a) (some b) = str_eq a b
same_stamp _ _ = false

-- `reserved_at < now - older_than`
abbrev pub is_stale : ℕ → ℕ → Hold → Bool
is_stale now older_than h = ltb (h.reserved_at + older_than) now

-- The `SELECT`, and the `DELETE` of the same rows.
unfoldable pub stale : ℕ → ℕ → Table Hold → Table Hold
stale now older_than [] = []
stale now older_than ((id, h) ∷ t) =
    let rest = stale now older_than t in if is_stale now older_than h then (id, h) ∷ rest else rest

pub fresh : ℕ → ℕ → Table Hold → Table Hold
fresh now older_than [] = []
fresh now older_than ((id, h) ∷ t) =
    let rest = fresh now older_than t in if is_stale now older_than h then rest else (id, h) ∷ rest

-- `MAX(0, spend - x)` on both counters
pub refund : ℤ → ℤ → Budget → Budget
refund daily monthly b = record b {
  spend_today = max_zero (b.spend_today -ℤ daily);
  spend_month = max_zero (b.spend_month -ℤ monthly);
}

-- What of a hold still stands in the day's and in the month's counter.
abbrev pub daily_part : Hold → Budget → ℤ
daily_part h b = if same_stamp b.last_reset_date h.reset_date then h.amount_usd else pos 0

abbrev pub monthly_part : Hold → Budget → ℤ
monthly_part h b = if same_stamp b.last_reset_month h.reset_month then h.amount_usd else pos 0

-- One round of the loop: the budgets, and `reclaimed`.
pub give_back : Hold → Table Budget → ℤ → Table Budget × ℤ
unfolding refund
give_back h budgets reclaimed = elim (lookup h.api_key budgets) [
  | none ↦ (budgets, reclaimed)
  | some b ↦
      let daily = daily_part h b in
      let monthly = monthly_part h b in
      (
        if is_zero daily && is_zero monthly
            then budgets
            else adjust h.api_key (refund daily monthly) budgets,
        reclaimed +ℤ daily,
      )
]

unfoldable pub give_back_all : Table Hold → Table Budget → ℤ → Table Budget × ℤ
give_back_all [] budgets reclaimed = (budgets, reclaimed)
give_back_all ((id, h) ∷ rows) budgets reclaimed =
    let (budgets', reclaimed') = give_back h budgets reclaimed in
    give_back_all rows budgets' reclaimed'

pub record Reclaimed : Type 0 where
  pub count : ℕ
  pub amount_usd : ℤ

unfoldable pub reclaim_stale_reservations : ℕ → ℕ → Store → Reclaimed × Store
reclaim_stale_reservations now older_than s =
    let rows = stale now older_than s.reservations in
    let (budgets', reclaimed) = give_back_all rows s.budgets (pos 0) in
    (
      record { count = length rows; amount_usd = reclaimed },
      record s { budgets = budgets'; reservations = fresh now older_than s.reservations },
    )
