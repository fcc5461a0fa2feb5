-- ===== src/Ledger/Reclaim/Steps.antt =====
-- One hold after the other in `reclaim_stale_reservations` (gateway/ledger/store.py).
use llm_gateway_with_cost_co.Prelude.{
  String, arith, if◌then◌else◌, max_zero, pos, some, str_eq, ℤ, ◌+ℤ◌, ◌-ℤ◌, ◌∷◌, ◌≡◌, ◌≤ℤ◌, [],
  Option-cases, eq_iff, inl, inr, Bool-cases, false, int_laws, pos-zero_add, refl, ℕ, none, ◌+◌,
  ◌≤◌,
}
use llm_gateway_with_cost_co.Ledger.Reclaim.{
  give_back, refund, daily_part, monthly_part, give_back_all, fresh, is_stale, stale,
}
use llm_gateway_with_cost_co.Table.{Table, lookup, lookup-adjust}
use llm_gateway_with_cost_co.Ledger.{Budget, Hold}

abbrev pub IsNonneg : ℤ → Type 0
IsNonneg a = pos 0 ≤ℤ a

-- What a client's stale holds still weigh in the counter of its day, and of its month.
unfoldable pub standing_day : String → Budget → Table Hold → ℤ
standing_day key b [] = pos 0
standing_day key b ((id, h) ∷ t) =
    (if str_eq h.api_key key then daily_part h b else pos 0) +ℤ standing_day key b t

unfoldable pub standing_month : String → Budget → Table Hold → ℤ
standing_month key b [] = pos 0
standing_month key b ((id, h) ∷ t) =
    (if str_eq h.api_key key then monthly_part h b else pos 0) +ℤ standing_month key b t

-- No hold has a negative amount.
abbrev pub AllNonneg : Table Hold → Type 0
AllNonneg [] = Unit
AllNonneg ((id, h) ∷ t) = IsNonneg h.amount_usd × AllNonneg t

max_zero_twice :
    (s a b : ℤ)
    → IsNonneg a
    → IsNonneg b
    → max_zero (max_zero (s -ℤ a) -ℤ b) ≡ max_zero (s -ℤ (a +ℤ b))
unfolding ◌+ℤ◌ ◌-ℤ◌
max_zero_twice s a b ha hb = ground arith

max_zero_less : (s : ℤ) → IsNonneg s → max_zero (s -ℤ pos 0) ≡ s
unfolding ◌-ℤ◌
max_zero_less s h = ground arith

refund_zero :
    (b : Budget) → IsNonneg b.spend_today → IsNonneg b.spend_month → refund (pos 0) (pos 0) b ≡ b
unfolding refund
refund_zero b d m = ground (arith, max_zero_less b.spend_today, max_zero_less b.spend_month)

refund-refund :
    (d m d' m' : ℤ) (b : Budget)
    → IsNonneg d
    → IsNonneg m
    → IsNonneg d'
    → IsNonneg m'
    → refund d' m' (refund d m b) ≡ refund (d +ℤ d') (m +ℤ m') b
unfolding refund
refund-refund d m d' m' b hd hm hd' hm' =
    ground (arith, max_zero_twice b.spend_today d d', max_zero_twice b.spend_month m m')

-- One round of the loop, for the hold's own client and for any other.
lookup-give_back :
    (key : String) (h : Hold) (budgets : Table Budget) (reclaimed : ℤ) (b : Budget)
    → lookup key budgets ≡ some b
    → IsNonneg b.spend_today
    → IsNonneg b.spend_month
    → lookup key (give_back h budgets reclaimed).0
      ≡ some (if str_eq h.api_key key then refund (daily_part h b) (monthly_part h b) b else b)
unfolding give_back
lookup-give_back key h budgets reclaimed b e d m = elim (Option-cases (lookup h.api_key budgets)) [
  | inl no_row ↦ ground (arith, eq_iff h.api_key key)
  | inr (row, f) ↦ ground (
    arith,
    eq_iff h.api_key key,
    refund_zero b,
    lookup-adjust h.api_key key (refund (daily_part h row) (monthly_part h row)) budgets,
  )
]

refund-Nonneg :
    (d m : ℤ) (b : Budget)
    → IsNonneg (refund d m b).spend_today × IsNonneg (refund d m b).spend_month
unfolding refund
refund-Nonneg d m b = ground arith

-- A refund leaves the period stamps, so it does not change what later holds weigh.
standing-refund :
    (key : String) (d m : ℤ) (b : Budget) (rows : Table Hold)
    → (standing_day key (refund d m b) rows ≡ standing_day key b rows)
      × (standing_month key (refund d m b) rows ≡ standing_month key b rows)
unfolding standing_day standing_month refund
standing-refund key d m b [] = (refl, refl)
standing-refund key d m b ((id, h) ∷ rows) = ground (arith, standing-refund key d m b rows)

standing-Nonneg :
    (key : String) (b : Budget) (rows : Table Hold)
    → AllNonneg rows
    → IsNonneg (standing_day key b rows) × IsNonneg (standing_month key b rows)
unfolding standing_day standing_month
standing-Nonneg key b [] n = omega arith
standing-Nonneg key b ((id, h) ∷ rows) n = grind (int_laws, standing-Nonneg key b rows n.1)

pub lookup-give_back_all :
    (key : String) (rows : Table Hold) (budgets : Table Budget) (reclaimed : ℤ) (b : Budget)
    → lookup key budgets ≡ some b
    → IsNonneg b.spend_today
    → IsNonneg b.spend_month
    → AllNonneg rows
    → lookup key (give_back_all rows budgets reclaimed).0
      ≡ some (refund (standing_day key b rows) (standing_month key b rows) b)
unfolding give_back_all standing_day standing_month
lookup-give_back_all key [] budgets reclaimed b e d m n = rw (refund_zero b d m) e
lookup-give_back_all key ((id, h) ∷ rows) budgets reclaimed b e d m n =
    let one = lookup-give_back key h budgets reclaimed b e d m in
    let next = give_back h budgets reclaimed in
    let day = daily_part h b in
    let month = monthly_part h b in
    let b' = refund day month b in
    let rest = standing-Nonneg key b rows n.1 in
    elim (Bool-cases (str_eq h.api_key key)) [
      | inl mine ↦
          let ih =
            lookup-give_back_all key rows next.0 next.1 b' (rw mine at one)
              (refund-Nonneg day month b).0 (refund-Nonneg day month b).1 n.1 in
          ground (
            arith,
            ih,
            mine,
            standing-refund key day month b rows,
            refund-refund day month (standing_day key b rows) (standing_month key b rows) b,
          )
      | inr other ↦
          let ih = lookup-give_back_all key rows next.0 next.1 b (rw other at one) d m n.1 in
          ground (
            arith,
            ih,
            other,
            pos-zero_add (standing_day key b rows),
            pos-zero_add (standing_month key b rows),
          )
    ]

pub lookup-fresh :
    (now older_than : ℕ) (id : String) (h : Hold) (t : Table Hold)
    → lookup id t ≡ some h
    → is_stale now older_than h ≡ false
    → lookup id (fresh now older_than t) ≡ some h
unfolding fresh lookup
lookup-fresh now older_than id h [] e s = e
lookup-fresh now older_than id h ((j, k) ∷ t) e s =
    ground (arith, lookup-fresh now older_than id h t)

-- Every hold is young enough to stay.
pub AllYoung : ℕ → ℕ → Table Hold → Type 0
AllYoung now older_than [] = Unit
AllYoung now older_than ((id, h) ∷ t) =
    (now ≤ h.reserved_at + older_than) × AllYoung now older_than t

pub fresh-AllYoung :
    (now older_than : ℕ) (t : Table Hold) → AllYoung now older_than (fresh now older_than t)
unfolding fresh AllYoung
fresh-AllYoung now older_than [] = tt
fresh-AllYoung now older_than ((id, h) ∷ t) = ground (arith, fresh-AllYoung now older_than t)

pub stale-AllNonneg :
    (now older_than : ℕ) (t : Table Hold) → AllNonneg t → AllNonneg (stale now older_than t)
unfolding stale
stale-AllNonneg now older_than [] n = tt
stale-AllNonneg now older_than ((id, h) ∷ t) n = ground (arith, stale-AllNonneg now older_than t)

-- A hold of a client without a row is given up.
pub give_back_unknown :
    (h : Hold) (budgets : Table Budget) (reclaimed : ℤ)
    → lookup h.api_key budgets ≡ none
    → give_back h budgets reclaimed ≡ (budgets, reclaimed)
unfolding give_back
give_back_unknown h budgets reclaimed e = rw (e, give_back) refl
