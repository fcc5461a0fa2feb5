-- ===== src/Pii/Restorer.antt =====
-- The way back in gateway/policy/pii.py: `restore_text`, and `VaultRestorer` for an answer that
-- arrives in pieces.
use llm_gateway_with_cost_co.Prelude.{
  arith, Bool, List, Option, drop, false, get_or, if◌then◌else◌, leb, length, ltb, map, none, some,
  suc, take, zero, ℕ, ◌&&◌, ◌++◌, ◌-◌, ◌==◌, ◌∷◌, ◌||◌, [],
}
pub mod Tail
use llm_gateway_with_cost_co.Regex.{
  Regex, takes, match_at, boundary, is_word, left, any_case, fold, star, one, alt, in_order,
  literal,
}
use llm_gateway_with_cost_co.Text.{Text, is_empty, is_space, codes}
use llm_gateway_with_cost_co.Pii.{CharTables}

-- `token.strip("[]")`
abbrev is_bracket : ℕ → Bool
is_bracket c = c == b'[' || c == b']'

unfoldable pub drop_brackets : Text → Text
drop_brackets [] = []
drop_brackets (c ∷ t) = let rest = drop_brackets t in if is_bracket c then rest else c ∷ t

unfoldable pub drop_last_brackets : Text → Text
drop_last_brackets [] = []
drop_last_brackets (c ∷ t) =
    let rest = drop_last_brackets t in if is_empty rest && is_bracket c then [] else c ∷ rest

unfoldable pub strip_brackets : Text → Text
strip_brackets t = drop_last_brackets (drop_brackets t)

-- `t.rpartition("_")`, without the separator
unfoldable pub last_underscore : Text → Option (Text × Text)
last_underscore [] = none
last_underscore (c ∷ t) = elim (last_underscore t) [
  | some (before, after) ↦ some (c ∷ before, after)
  | none ↦ if c == b'_' then some ([], t) else none
]

unfoldable pub rpartition : Text → Text × Text
rpartition t = get_or (last_underscore t) ([], t)

-- The places where a placeholder may stand, in any case and with or without its brackets
unfoldable pub placeholder_pattern : CharTables → Text → Regex
placeholder_pattern tables token =
    let edge = boundary (is_word tables.wide_word) in
    let parts = rpartition (strip_brackets token) in
    let label = any_case (map fold parts.0) in
    let number = any_case (map fold parts.1) in
    let any_space = star (one is_space) in
    alt
      (in_order (
        literal (codes "[")
        ∷ any_space
        ∷ label
        ∷ star (one (λ c. is_space c || c == b'_' || c == b'-'))
        ∷ number
        ∷ any_space
        ∷ literal (codes "]")
        ∷ []))
      (in_order (edge ∷ label ∷ literal (codes "_") ∷ number ∷ edge ∷ []))

-- `sorted(vault_mapping, key=len, reverse=True)`, which leaves equals in their order
unfoldable pub insert_by_length : Text × Text → List (Text × Text) → List (Text × Text)
insert_by_length x [] = x ∷ []
insert_by_length x (y ∷ ys) =
    if leb (length y.0) (length x.0) then x ∷ y ∷ ys else y ∷ insert_by_length x ys

unfoldable pub longest_first : List (Text × Text) → List (Text × Text)
longest_first [] = []
longest_first (x ∷ xs) = insert_by_length x (longest_first xs)

unfoldable pub alternatives : CharTables → List (Text × Text) → List (Regex × Text)
alternatives tables [] = []
alternatives tables ((token, value) ∷ xs) =
    (placeholder_pattern tables token, value) ∷ alternatives tables xs

-- The first alternative that matches here: how much it takes and what it stands for
unfoldable pub first_alternative : List (Regex × Text) → Option ℕ → Text → Option ℕ × Text
first_alternative [] b t = (none, [])
first_alternative ((r, value) ∷ rs) b t =
    let later = first_alternative rs b t in
    elim (match_at r b t) [ some n ↦ (some n, value) | none ↦ later ]

-- `combined.sub(resolve, text)`: what has been put in is not looked at again.
unfoldable pub restore_from : List (Regex × Text) → Option ℕ → ℕ → Text → Text
restore_from rs b skip [] = []
restore_from rs b zero (c ∷ t) =
    let found = first_alternative rs b (c ∷ t) in
    (if takes found.0 then found.1 else c ∷ []) ++ restore_from rs (some c) (left found.0) t
restore_from rs b (suc k) (c ∷ t) = restore_from rs (some c) k t

unfoldable pub restore_text : CharTables → List (Text × Text) → Text → Text
restore_text tables mapping t =
    if is_empty t || is_empty mapping
    then t
    else restore_from (alternatives tables (longest_first mapping)) none 0 t

-- `VaultRestorer`
pub record VaultRestorer : Type 0 where
  pub mapping : List (Text × Text)
  pub pending : Text

abbrev pub new_restorer : List (Text × Text) → VaultRestorer
new_restorer mapping = record { mapping = mapping; pending = [] }

abbrev pub max_token_len : ℕ
max_token_len = 64

-- `text.rfind("[")`
unfoldable pub last_bracket : Text → Option ℕ
last_bracket [] = none
last_bracket (c ∷ t) = elim (last_bracket t) [
  | some n ↦ some (suc n)
  | none ↦ if c == b'[' then some 0 else none
]

unfoldable pub has_code : ℕ → Text → Bool
has_code c [] = false
has_code c (d ∷ t) = d == c || has_code c t

-- `_boundary`, from where the last bracket opens
abbrev pub boundary_at : Text → Option ℕ → ℕ
boundary_at t none = length t
boundary_at t (some opened) =
    if has_code b']' (drop opened t) || ltb max_token_len (length t - opened)
    then length t
    else opened

unfoldable pub token_boundary : Text → ℕ
token_boundary t = boundary_at t (last_bracket t)

unfoldable pub feed_text : CharTables → Text → VaultRestorer → Text × VaultRestorer
feed_text tables t r =
    let whole = r.pending ++ t in
    let limit = token_boundary whole in
    if is_empty r.mapping then (t, r) else (
      restore_text tables r.mapping (take limit whole),
      record { mapping = r.mapping; pending = drop limit whole },
    )

unfoldable pub flush_text : CharTables → VaultRestorer → Text × VaultRestorer
flush_text tables r =
    if is_empty r.pending
    then ([], r)
    else (restore_text tables r.mapping r.pending, record { mapping = r.mapping; pending = [] })

-- The pieces of an answer one after the other
unfoldable pub feed_texts : CharTables → List Text → VaultRestorer → Text × VaultRestorer
feed_texts tables [] r = ([], r)
feed_texts tables (t ∷ ts) r =
    let fed = feed_text tables t r in
    let rest = feed_texts tables ts fed.1 in (fed.0 ++ rest.0, rest.1)

unfoldable pub restore_stream : CharTables → List Text → VaultRestorer → Text × VaultRestorer
restore_stream tables ts r =
    let fed = feed_texts tables ts r in
    let last = flush_text tables fed.1 in (fed.0 ++ last.0, last.1)
