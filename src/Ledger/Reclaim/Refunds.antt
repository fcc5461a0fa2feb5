-- ===== src/Ledger/Reclaim/Refunds.antt =====
-- Which holds `reclaim_stale_reservations` (gateway/ledger/store.py) ends, and what it gives back.
use llm_gateway_with_cost_co.Prelude.{
  String, arith, if◌then◌else◌, max_zero, pos, some, str_eq, ℤ, ◌+ℤ◌, ◌-ℤ◌, ◌∷◌, ◌≡◌, [], false,
  pos-zero_add, refl, ℕ, none, Bool, Option, ltb, true, ◌&&◌, ◌+◌, ◌≤◌,
}
use llm_gateway_with_cost_co.Ledger.Reclaim.{refund, stale, reclaim_stale_reservations, same_stamp}
use llm_gateway_with_cost_co.Table.{Table, lookup}
use llm_gateway_with_cost_co.Ledger.{Budget, Hold, Store}
use llm_gateway_with_cost_co.Ledger.Reclaim.Steps.{
  AllNonneg, AllYoung, IsNonneg, fresh-AllYoung, lookup-fresh, lookup-give_back_all,
  stale-AllNonneg, standing_day, standing_month,
}

-- A counter that stands in `period` counts a hold that was taken in it.
abbrev pub in_period : Option String → Option String → Bool
in_period (some period) (some taken) = str_eq period taken
in_period (some period) none = false
in_period none (some taken) = false
in_period none none = true

same_stamp_lem : (period taken : Option String) → same_stamp period taken ≡ in_period period taken
same_stamp_lem none none = refl
same_stamp_lem none (some t) = refl
same_stamp_lem (some p) none = refl
same_stamp_lem (some p) (some t) = refl

-- The sum of a client's holds that were placed more than `older_than` before `now`, on the day that
-- the client's row stands in, and in its month.
module _ (now older_than : ℕ) (key : String) (b : Budget) where
  pub owed_today : Table Hold → ℤ
  owed_today [] = pos 0
  owed_today ((id, h) ∷ t) =
      (if ltb (h.reserved_at + older_than) now
          && (str_eq h.api_key key && in_period b.last_reset_date h.reset_date)
        then h.amount_usd
        else pos 0)
      +ℤ owed_today t

  pub owed_this_month : Table Hold → ℤ
  owed_this_month [] = pos 0
  owed_this_month ((id, h) ∷ t) =
      (if ltb (h.reserved_at + older_than) now
          && (str_eq h.api_key key && in_period b.last_reset_month h.reset_month)
        then h.amount_usd
        else pos 0)
      +ℤ owed_this_month t

  owed_today_lem : (t : Table Hold) → owed_today t ≡ standing_day key b (stale now older_than t)
  unfolding owed_today standing_day stale
  owed_today_lem [] = refl
  owed_today_lem ((id, h) ∷ t) = ground (
    arith,
    owed_today_lem t,
    same_stamp_lem b.last_reset_date h.reset_date,
    pos-zero_add (standing_day key b (stale now older_than t)),
  )

  owed_this_month_lem :
      (t : Table Hold) → owed_this_month t ≡ standing_month key b (stale now older_than t)
  unfolding owed_this_month standing_month stale
  owed_this_month_lem [] = refl
  owed_this_month_lem ((id, h) ∷ t) = ground (
    arith,
    owed_this_month_lem t,
    same_stamp_lem b.last_reset_month h.reset_month,
    pos-zero_add (standing_month key b (stale now older_than t)),
  )

module _ (now older_than : ℕ) (s : Store) where
  -- With non-negative counters and holds: the day's counter of a client is lowered, though not below
  -- 0, by the sum of its holds that are older than the limit and were taken on the day of its row,
  -- and the month's counter by those taken in the month of its row; the row is otherwise as it was.
  -- No hold older than the limit is left, and every other hold stays.
  pub reclaim_refunds :
      (key : String) (b : Budget)
      → lookup key s.budgets ≡ some b
      → IsNonneg b.spend_today
      → IsNonneg b.spend_month
      → AllNonneg s.reservations
      → let s' = (reclaim_stale_reservations now older_than s).1 in
        (lookup key s'.budgets
          ≡ some (record b {
            spend_today =
                max_zero (b.spend_today -ℤ owed_today now older_than key b s.reservations);
            spend_month =
                max_zero (b.spend_month -ℤ owed_this_month now older_than key b s.reservations);
          }))
        × AllYoung now older_than s'.reservations
        × ((id : String) (h : Hold)
            → lookup id s.reservations ≡ some h
            → now ≤ h.reserved_at + older_than
            → lookup id s'.reservations ≡ some h)
  unfolding reclaim_stale_reservations
  reclaim_refunds key b e d m n = (
    rw
        (
          owed_today_lem now older_than key b s.reservations,
          owed_this_month_lem now older_than key b s.reservations,
        )
        (unfold refund in
          lookup-give_back_all key (stale now older_than s.reservations) s.budgets (pos 0) b e d m
            (stale-AllNonneg now older_than s.reservations n)),
    fresh-AllYoung now older_than s.reservations,
    λ id h f live. lookup-fresh now older_than id h s.reservations f (ground (arith, live)),
  )
