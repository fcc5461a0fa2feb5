-- ===== src/Ledger/Accounts/Sums.antt =====
-- How inserting and deleting a row changes the sums of gateway/ledger/store.py's tables.
use llm_gateway_with_cost_co.Prelude.{
  ◌≡◌, none, some, [], ◌∷◌, String, str_eq, eq_iff, ℤ, pos, ◌+ℤ◌, if◌then◌else◌, arith, int_laws,
}
use llm_gateway_with_cost_co.Table.{Table, lookup, insert, remove, lookup-remove, lookup-insert}
use llm_gateway_with_cost_co.Ledger.{RequestRow, Hold}
use llm_gateway_with_cost_co.Ledger.Accounts.{charged, held, IsKeyed}

abbrev pub cost_of : String → RequestRow → ℤ
cost_of key r = if str_eq r.api_key key then r.cost_usd else pos 0

abbrev pub amount_of : String → Hold → ℤ
amount_of key h = if str_eq h.api_key key then h.amount_usd else pos 0

pub charged-insert :
    (key id : String) (r : RequestRow) (t : Table RequestRow)
    → lookup id t ≡ none
    → charged key (insert id r t) ≡ charged key t +ℤ cost_of key r
unfolding charged lookup insert
charged-insert key id r [] e = omega int_laws
charged-insert key id r ((j, q) ∷ t) e = grind (int_laws, charged-insert key id r t)

pub held-insert :
    (key id : String) (h : Hold) (t : Table Hold)
    → lookup id t ≡ none
    → held key (insert id h t) ≡ held key t +ℤ amount_of key h
unfolding held lookup insert
held-insert key id h [] e = omega int_laws
held-insert key id h ((j, q) ∷ t) e = grind (int_laws, held-insert key id h t)

pub held-remove_absent :
    (key id : String) (t : Table Hold) → lookup id t ≡ none → held key (remove id t) ≡ held key t
unfolding held lookup remove
held-remove_absent key id [] e = omega int_laws
held-remove_absent key id ((j, q) ∷ t) e = grind (int_laws, held-remove_absent key id t)

pub held-remove :
    (key id : String) (h : Hold) (t : Table Hold)
    → IsKeyed t
    → lookup id t ≡ some h
    → held key (remove id t) +ℤ amount_of key h ≡ held key t
unfolding held lookup remove
held-remove key id h [] k e = ground arith
held-remove key id h ((j, q) ∷ t) k e =
    grind (int_laws, held-remove key id h t, held-remove_absent key id t, eq_iff j id)

module _ {ℓ} {V : Type ℓ} where
  pub insert-IsKeyed : (id : String) (v : V) (t : Table V) → IsKeyed t → IsKeyed (insert id v t)
  unfolding insert lookup
  insert-IsKeyed id v [] k = ground arith
  insert-IsKeyed id v ((j, w) ∷ t) k =
      ground (arith, insert-IsKeyed id v t, lookup-insert id j v t, eq_iff id j, eq_iff j id)

  pub remove-IsKeyed : (id : String) (t : Table V) → IsKeyed t → IsKeyed (remove id t)
  unfolding remove
  remove-IsKeyed id [] k = k
  remove-IsKeyed id ((j, w) ∷ t) k = ground (arith, remove-IsKeyed id t, lookup-remove id j t)
