-- ===== src/Ledger/Accounts.antt =====
-- What the ledger of gateway/ledger/store.py owes: recorded costs and open holds, by client.
pub mod Sums
pub mod Balance
pub mod Rollover
pub mod Ceiling
mod Examples
use llm_gateway_with_cost_co.Prelude.{
  List, [], ◌∷◌, String, str_eq, ℤ, pos, ◌+ℤ◌, if◌then◌else◌, ◌≡◌, none,
}
use llm_gateway_with_cost_co.Table.{Table, lookup}
use llm_gateway_with_cost_co.Ledger.{RequestRow, Hold, Store}

unfoldable pub charged : String → Table RequestRow → ℤ
charged key [] = pos 0
charged key ((id, r) ∷ t) = (if str_eq r.api_key key then r.cost_usd else pos 0) +ℤ charged key t

unfoldable pub held : String → Table Hold → ℤ
held key [] = pos 0
held key ((id, h) ∷ t) = (if str_eq h.api_key key then h.amount_usd else pos 0) +ℤ held key t

abbrev pub owed : String → Store → ℤ
owed key s = charged key s.requests +ℤ held key s.reservations

-- A primary key stands in one row.
abbrev pub IsKeyed {ℓ} : {V : Type ℓ} → Table V → Type ℓ
IsKeyed [] = Unit
IsKeyed ((k, v) ∷ t) = (lookup k t ≡ none) × IsKeyed t
