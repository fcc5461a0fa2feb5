-- ===== src/Ledger/RateLimit/Window.antt =====
-- The sliding window of `check_rate_limit` (gateway/ledger/store.py).
use llm_gateway_with_cost_co.Prelude.{
  Bool, List, String, arith, false, if◌then◌else◌, leb_ℤ, pos, refl, true, ℕ, ℤ, ◌++◌, ◌+◌, ◌∷◌,
  ◌≡◌, ◌≤◌, [],
}
use llm_gateway_with_cost_co.Ledger.RateLimit.{count_recent, rate_of, prune, check_rate_limit}
use llm_gateway_with_cost_co.Ledger.{RateEntry, Result, Store, ok, err}
use llm_gateway_with_cost_co.Table.{lookup}

-- Pruning at one time changes no count at that time or later, of any key.
pub count-prune :
    (key k : String) (now later : ℕ) (log : List RateEntry)
    → now ≤ later
    → count_recent k later (prune key now log) ≡ count_recent k later log
unfolding count_recent prune
count-prune key k now later [] le = refl
count-prune key k now later (e ∷ log) le = ground (arith, count-prune key k now later log)

pub count-append :
    (k : String) (t : ℕ) (xs ys : List RateEntry)
    → count_recent k t (xs ++ ys) ≡ count_recent k t xs + count_recent k t ys
unfolding count_recent
count-append k t [] ys = omega arith
count-append k t (e ∷ xs) ys = omega (arith, count-append k t xs ys)

-- The specification: every admission is remembered for ever, and a request is admitted if fewer
-- than the limit were in the last sixty seconds.
pub admit : ℤ → String → ℕ → List RateEntry → Bool × List RateEntry
admit limit key now history =
    if leb_ℤ limit (pos (count_recent key now history))
    then (false, history)
    else (true, history ++ record { api_key = key; ts = now } ∷ [])

-- The table answers as the whole history does, from a time on.
abbrev pub SameWindow : ℕ → List RateEntry → List RateEntry → Type 0
SameWindow now log history =
    (key : String) (t : ℕ) → now ≤ t → count_recent key t log ≡ count_recent key t history

abbrev pub is_ok {ℓ} : {A : Type ℓ} → Result A → Bool
is_ok (ok a) = true
is_ok (err e) = false

module _ (digest : String → String) (now : ℕ) (api_key : String) (s : Store)
    (history : List RateEntry) where
  -- The pruned table gives the answer of the whole history, and goes on doing so.
  pub check_rate_limit_refines :
      SameWindow now s.rate_limit_log history
      → let limit = rate_of (lookup (digest api_key) s.budgets) in
        let (r, s') = check_rate_limit digest now api_key s in
        let (admitted, history') = admit limit (digest api_key) now history in
        (is_ok r ≡ admitted) × SameWindow now s'.rate_limit_log history' × (s'.budgets ≡ s.budgets)
  unfolding check_rate_limit admit
  check_rate_limit_refines same =
      let key = digest api_key in
      let row : List RateEntry = record { api_key = key; ts = now } ∷ [] in
      let log = prune key now s.rate_limit_log in
      let here = count-prune key key now now s.rate_limit_log (omega arith) in
      (
        ground (arith, here, same key now),
        (λ k t le. ground (
          arith,
          here,
          same key now,
          same k t,
          count-prune key k now t s.rate_limit_log,
          count-append k t log row,
          count-append k t history row,
        )),
        ground arith,
      )
