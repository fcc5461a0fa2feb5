-- ===== src/Ledger/Migration.antt =====
-- `_migrate_plaintext_keys` (gateway/ledger/store.py): keys in the clear are replaced by their
-- digests. Checkpoint and VACUUM, which only touch the file, are left out.
pub mod Hashed
mod Examples
use llm_gateway_with_cost_co.Prelude.{
  ℕ, List, String, if◌then◌else◌, is_some, some, str_eq, ◌∷◌, [],
}
use llm_gateway_with_cost_co.Table.{Table, lookup, remove}
use llm_gateway_with_cost_co.Ledger.{RateEntry, FeedbackRow, Store, RequestRow, Budget}
use llm_gateway_with_cost_co.Ledger.Budgets.{is_stamped}
use llm_gateway_with_cost_co.Ledger.Keys.{prefix, is_hashed, key_prefix_len}

-- The keys that are still in the clear.
pub stale_keys : Table Budget → List String
stale_keys [] = []
stale_keys ((k, b) ∷ t) = let rest = stale_keys t in if is_hashed k then rest else k ∷ rest

-- `UPDATE budgets SET api_key = digest, key_prefix = prefix WHERE api_key = plaintext`
pub rekey_budgets : String → String → Table Budget → Table Budget
rekey_budgets plaintext digest [] = []
rekey_budgets plaintext digest ((k, b) ∷ t) =
    (if str_eq k plaintext
      then (digest, record b { key_prefix = some (prefix key_prefix_len plaintext) })
      else (k, b))
    ∷ rekey_budgets plaintext digest t

rekey_requests : String → String → Table RequestRow → Table RequestRow
rekey_requests plaintext digest [] = []
rekey_requests plaintext digest ((id, r) ∷ t) =
    (id, if str_eq r.api_key plaintext then record r { api_key = digest } else r)
    ∷ rekey_requests plaintext digest t

rekey_feedback : String → String → List FeedbackRow → List FeedbackRow
rekey_feedback plaintext digest [] = []
rekey_feedback plaintext digest (r ∷ rs) =
    (if is_stamped r.api_key plaintext then record r { api_key = some digest } else r)
    ∷ rekey_feedback plaintext digest rs

rekey_log : String → String → List RateEntry → List RateEntry
rekey_log plaintext digest [] = []
rekey_log plaintext digest (e ∷ es) =
    (if str_eq e.api_key plaintext then record e { api_key = digest } else e)
    ∷ rekey_log plaintext digest es

-- One round of the loop. A key whose digest has a row already loses its own.
pub migrate_key : (String → String) → String → Store → Store
unfolding rekey_budgets rekey_requests rekey_feedback rekey_log
migrate_key hash plaintext s =
    let digest = hash plaintext in
    record s {
      budgets =
          if is_some (lookup digest s.budgets)
          then remove plaintext s.budgets
          else rekey_budgets plaintext digest s.budgets;
      requests = rekey_requests plaintext digest s.requests;
      feedback = rekey_feedback plaintext digest s.feedback;
      rate_limit_log = rekey_log plaintext digest s.rate_limit_log;
    }

pub migrate_keys : (String → String) → List String → Store → Store
migrate_keys hash [] s = s
migrate_keys hash (k ∷ ks) s = migrate_keys hash ks (migrate_key hash k s)

pub migrate_plaintext_keys : (String → String) → Store → Store
unfolding stale_keys migrate_keys
migrate_plaintext_keys hash s = migrate_keys hash (stale_keys s.budgets) s
