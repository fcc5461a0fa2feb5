-- ===== src/Ledger/Migration/Hashed.antt =====
-- What the key migration of gateway/ledger/store.py leaves in the clear.
use llm_gateway_with_cost_co.Prelude.{
  arith, Bool-cases, List, String, eq_iff, eq_refl, false, inl, inr, is_some, none, refl, true, ℤ,
  ap, pos, ℕ, ◌∷◌, ◌≡◌, ◌⊎◌, [],
}
use llm_gateway_with_cost_co.Table.{Table, remove, lookup}
use llm_gateway_with_cost_co.Ledger.Migration.{
  rekey_budgets, stale_keys, migrate_plaintext_keys, migrate_keys, migrate_key,
}
use llm_gateway_with_cost_co.Ledger.{Store, Budget, Hold}
use llm_gateway_with_cost_co.Router.Ranking.{member}
use llm_gateway_with_cost_co.Ledger.Keys.{is_hashed}
use llm_gateway_with_cost_co.Ledger.Reclaim.{give_back_all, reclaim_stale_reservations, stale}
use llm_gateway_with_cost_co.Ledger.Reclaim.Steps.{give_back_unknown}

-- A key is a digest, or one of those still to be migrated.
abbrev IsDue : List String → Table Budget → Type 0
IsDue ks [] = Unit
IsDue ks ((k, b) ∷ t) = ((is_hashed k ≡ true) ⊎ (member k ks ≡ true)) × IsDue ks t

stale_keys-IsDue :
    (t u : Table Budget)
    → ((k : String) → member k (stale_keys t) ≡ true → member k (stale_keys u) ≡ true)
    → IsDue (stale_keys u) t
unfolding stale_keys
stale_keys-IsDue [] u sub = tt
stale_keys-IsDue ((k, b) ∷ t) u sub = elim (Bool-cases (is_hashed k)) [
  | inl hashed ↦ (inl hashed, stale_keys-IsDue t u (λ j m. sub j (rw (hashed, stale_keys) m)))
  | inr clear_text ↦ (
    inr (sub k (rw (clear_text, stale_keys) (ground (arith, eq_refl k)))),
    stale_keys-IsDue t u (λ j m. sub j (rw (clear_text, stale_keys) (ground (arith, m)))),
  )
]

remove-IsDue :
    (k : String) (ks : List String) (t : Table Budget) → IsDue (k ∷ ks) t → IsDue ks (remove k t)
unfolding remove
remove-IsDue k ks [] h = tt
remove-IsDue k ks ((j, b) ∷ t) h = ground (arith, remove-IsDue k ks t h.1, h.0)

rekey-IsDue :
    (k digest : String) (ks : List String) (t : Table Budget)
    → is_hashed digest ≡ true
    → IsDue (k ∷ ks) t
    → IsDue ks (rekey_budgets k digest t)
unfolding rekey_budgets
rekey-IsDue k digest ks [] d h = tt
rekey-IsDue k digest ks ((j, b) ∷ t) d h = ground (arith, rekey-IsDue k digest ks t d h.1, h.0)

migrate-IsDue :
    (hash : String → String) (ks : List String) (s : Store)
    → ((k : String) → is_hashed (hash k) ≡ true)
    → IsDue ks s.budgets
    → IsDue [] (migrate_keys hash ks s).budgets
unfolding migrate_keys migrate_key
migrate-IsDue hash [] s d h = h
migrate-IsDue hash (k ∷ ks) s d h =
    migrate-IsDue hash ks (migrate_key hash k s) d
      (elim (Bool-cases (is_some (lookup (hash k) s.budgets))) [
        | inl clash ↦ rw (clash) (remove-IsDue k ks s.budgets h)
        | inr free ↦ rw (free) (rekey-IsDue k (hash k) ks s.budgets (d k) h)
      ])

lookup-IsDue :
    (k : String) (t : Table Budget) → IsDue [] t → is_hashed k ≡ false → lookup k t ≡ none
unfolding lookup
lookup-IsDue k [] h e = refl
lookup-IsDue k ((j, b) ∷ t) h e = grind (arith, lookup-IsDue k t h.1 e, h.0, eq_iff j k)

migrate_keys-reservations :
    (hash : String → String) (ks : List String) (s : Store)
    → (migrate_keys hash ks s).reservations ≡ s.reservations
unfolding migrate_keys migrate_key
migrate_keys-reservations hash [] s = refl
migrate_keys-reservations hash (k ∷ ks) s = migrate_keys-reservations hash ks (migrate_key hash k s)

-- Every hold was taken before keys were hashed.
abbrev pub AllClear : Table Hold → Type 0
AllClear [] = Unit
AllClear ((id, h) ∷ t) = (is_hashed h.api_key ≡ false) × AllClear t

stale-AllClear :
    (now older_than : ℕ) (t : Table Hold) → AllClear t → AllClear (stale now older_than t)
unfolding stale
stale-AllClear now older_than [] c = tt
stale-AllClear now older_than ((id, h) ∷ t) c = ground (arith, stale-AllClear now older_than t c.1)

give_back_all-AllClear :
    (rows : Table Hold) (budgets : Table Budget) (reclaimed : ℤ)
    → IsDue [] budgets
    → AllClear rows
    → give_back_all rows budgets reclaimed ≡ (budgets, reclaimed)
unfolding give_back_all
give_back_all-AllClear [] budgets reclaimed due c = refl
give_back_all-AllClear ((id, h) ∷ rows) budgets reclaimed due c =
    rw (give_back_unknown h budgets reclaimed (lookup-IsDue h.api_key budgets due c.0))
      (give_back_all-AllClear rows budgets reclaimed due c.1)

-- Where `hash` gives digests and every hold stands under a key in the clear: after the migration no
-- key in the clear has a budget, and every hold stands as it was, still under its old key. So a later
-- reclaim, whichever holds it ends, reports an amount of 0 and leaves all budgets as they are.
pub migration_hashes :
    (hash : String → String) (s : Store) (plaintext : String) (now older_than : ℕ)
    → ((k : String) → is_hashed (hash k) ≡ true)
    → AllClear s.reservations
    → is_hashed plaintext ≡ false
    → let s' = migrate_plaintext_keys hash s in
      let (reclaimed, s'') = reclaim_stale_reservations now older_than s' in
      (lookup plaintext s'.budgets ≡ none)
      × (s'.reservations ≡ s.reservations)
      × (s''.budgets ≡ s'.budgets)
      × (reclaimed.amount_usd ≡ pos 0)
unfolding migrate_plaintext_keys reclaim_stale_reservations
migration_hashes hash s plaintext now older_than d c clear_text =
    let s' = migrate_plaintext_keys hash s in
    let due =
      migrate-IsDue hash (stale_keys s.budgets) s d
        (stale_keys-IsDue s.budgets s.budgets (λ k m. m)) in
    let kept = migrate_keys-reservations hash (stale_keys s.budgets) s in
    let nothing =
      give_back_all-AllClear (stale now older_than s'.reservations) s'.budgets (pos 0) due
        (stale-AllClear now older_than s'.reservations (rw kept c)) in
    (
      lookup-IsDue plaintext s'.budgets due clear_text,
      kept,
      ap (λ (r : Table Budget × ℤ). r.0) nothing,
      ap (λ (r : Table Budget × ℤ). r.1) nothing,
    )
