-- ===== src/Ledger/Migration/Examples.antt =====
-- The migration's theorem (gateway/ledger/store.py) at one client whose key is in the clear.
use llm_gateway_with_cost_co.Ledger.Examples.{start}
use llm_gateway_with_cost_co.Prelude.{String, false, none, pos, refl, true, ◌≡◌, ◌∷◌, []}
use llm_gateway_with_cost_co.Table.{lookup}
use llm_gateway_with_cost_co.Ledger.Keys.{is_hashed}
use llm_gateway_with_cost_co.Ledger.{Hold, Store}
use llm_gateway_with_cost_co.Ledger.Migration.{migrate_plaintext_keys}
use llm_gateway_with_cost_co.Ledger.Reclaim.{reclaim_stale_reservations}
use llm_gateway_with_cost_co.Ledger.Migration.Hashed.{migration_hashes}

-- A function into digests.
abbrev hash : String → String
hash k = "0123456789abcdef0123456789abcdef0123456789abcdef0123456789abcdef"

hash_hashed : (k : String) → is_hashed (hash k) ≡ true
unfolding is_hashed
hash_hashed k = refl

alice_clear : is_hashed "alice" ≡ false
unfolding is_hashed
alice_clear = refl

abbrev hold : Hold
hold = record {
  api_key = "alice";
  amount_usd = pos 3;
  reset_date = none;
  reset_month = none;
  reserved_at = 0;
}

abbrev held : Store
held = record start { reservations = ("r1", hold) ∷ [] }

migration_hashes_example :
    let s' = migrate_plaintext_keys hash held in
    let (reclaimed, s'') = reclaim_stale_reservations 5000 1000 s' in
    (lookup "alice" s'.budgets ≡ none)
    × (s'.reservations ≡ held.reservations)
    × (s''.budgets ≡ s'.budgets)
    × (reclaimed.amount_usd ≡ pos 0)
migration_hashes_example =
    migration_hashes hash held "alice" 5000 1000 hash_hashed (alice_clear, tt) alice_clear
