-- ===== src/Ledger/Requests.antt =====
-- Recorded requests and their ratings (gateway/ledger/store.py). `digest` is `hash_api_key`.
use mathlib.Core.Option
use llm_gateway_with_cost_co.Prelude.{
  ℕ, Option, none, some, [], ◌∷◌, ◌++◌, String, str_eq, ℤ, ◌-ℤ◌, if◌then◌else◌, is_some, arith, ◌≡◌,
}
use llm_gateway_with_cost_co.Table.{lookup, insert, adjust, remove, lookup-adjust}
use llm_gateway_with_cost_co.Ledger.{RequestRow, Store, Result, ok, err, duplicate_id}
use llm_gateway_with_cost_co.Ledger.Budgets.{add_spend}

-- The arguments of `record_request`.
pub record Spend : Type 0 where
  pub api_key : String
  pub req_id : String
  pub backend : String
  pub model : String
  pub prompt_tokens : ℕ
  pub comp_tokens : ℕ
  pub cost : ℤ
  pub latency : ℕ
  pub reserved_cost : ℤ

-- `x or y` on texts: NULL and the empty text are falsy.
pub or_text : Option String → Option String → Option String
or_text none y = y
or_text (some x) y = if str_eq x "" then y else some x

module _ (digest : String → String) where
  unfoldable pub row_of : Spend → RequestRow
  row_of x = record {
    api_key = digest x.api_key;
    backend = x.backend;
    model = x.model;
    prompt_tokens = x.prompt_tokens;
    completion_tokens = x.comp_tokens;
    cost_usd = x.cost;
    latency_ms = x.latency;
  }

  -- The three statements: the row, the difference to the reservation, the end of the hold.
  unfoldable pub write_request : Spend → Store → Store
  unfolding row_of add_spend
  write_request x s = record s {
    requests = insert x.req_id (row_of x) s.requests;
    budgets = adjust (digest x.api_key) (add_spend (x.cost -ℤ x.reserved_cost)) s.budgets;
    reservations = remove x.req_id s.reservations;
  }

  -- The id is the primary key: a second row with it raises `IntegrityError` and nothing is written.
  unfoldable pub record_request : Spend → Store → Result (Unit {0}) × Store
  unfolding write_request
  record_request x s =
      if is_some (lookup x.req_id s.requests)
      then (err duplicate_id, s)
      else (ok tt, write_request x s)

  -- Backend, model and client come from the request's row where there is one.
  pub record_feedback : String → ℤ → Option String → Option String → Store → Store
  unfolding or_text
  record_feedback request_id rating api_key comment s =
      let row = lookup request_id s.requests in
      let own : Option String = elim api_key [
        | none ↦ none
        | some k ↦ if str_eq k "" then none else some (digest k)
      ] in
      record s {
        feedback =
            s.feedback
            ++ record {
              request_id = request_id;
              api_key = or_text (elim row [ none ↦ none | some r ↦ some r.api_key ]) own;
              backend = elim row [ none ↦ none | some r ↦ some r.backend ];
              model = elim row [ none ↦ none | some r ↦ some r.model ];
              rating = rating;
              comment = comment;
            }
              ∷ [];
      }

-- What a first record under an id does to every client's row.
pub budgets-record :
    (digest : String → String) (key : String) (x : Spend) (s : Store)
    → lookup x.req_id s.requests ≡ none
    → lookup key (record_request digest x s).1.budgets ≡ (
        if str_eq (digest x.api_key) key
        then Option.map (add_spend (x.cost -ℤ x.reserved_cost)) (lookup key s.budgets)
        else lookup key s.budgets)
unfolding record_request
budgets-record digest key x s e = ground (
  arith,
  e,
  lookup-adjust (digest x.api_key) key (add_spend (x.cost -ℤ x.reserved_cost)) s.budgets,
)
