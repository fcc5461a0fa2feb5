-- ===== src/Pii/Vault.antt =====
-- The vault of gateway/policy/pii.py: personal data out of a prompt and back into the answer.
use llm_gateway_with_cost_co.Prelude.{
  arith, Bool, List, Option, drop, get_or, if◌then◌else◌, ltb, none, some, suc, take, true, zero, ℕ,
  ◌%◌, ◌&&◌, ◌++◌, ◌+◌, ◌/◌, ◌∷◌, [],
}
mod Placeholders
pub mod Issued
use llm_gateway_with_cost_co.Regex.{Regex, match_at, sub_from, left, takes}
use llm_gateway_with_cost_co.Pii.{CharTables, luhn_valid}
use llm_gateway_with_cost_co.Pii.Patterns.{PiiPattern, pii_patterns}
use llm_gateway_with_cost_co.Text.{Text, same_text, is_empty, codes}
use llm_gateway_with_cost_co.Pii.Shapes.{decimal}
use llm_gateway_with_cost_co.Adapter.{Message}

pub record Match : Type 0 where
  pub start : ℕ
  pub stop : ℕ
  pub value : Text

-- `pattern.finditer(t)`, for a pattern that matches no empty text
unfoldable pub matches_from : Regex → ℕ → Option ℕ → ℕ → Text → List Match
matches_from r position b skip [] = []
matches_from r position b zero (c ∷ t) =
    let found = match_at r b (c ∷ t) in
    let rest = matches_from r (suc position) (some c) (left found) t in
    if takes found
    then record {
      start = position;
      stop = position + suc (left found);
      value = take (suc (left found)) (c ∷ t);
    }
      ∷ rest
    else rest
matches_from r position b (suc k) (c ∷ t) = matches_from r (suc position) (some c) k t

-- `re.sub(r"\D", "", value)`
unfoldable pub keep_decimals : CharTables → Text → Text
keep_decimals tables [] = []
keep_decimals tables (c ∷ t) =
    let rest = keep_decimals tables t in if decimal tables c then c ∷ rest else rest

-- `_accepts`
unfoldable pub accepts : CharTables → Text → Text → Bool
accepts tables label value =
    if same_text label (codes "CREDIT_CARD")
    then luhn_valid tables (keep_decimals tables value)
    else true

unfoldable pub accepted : CharTables → Text → List Match → List Match
accepted tables label [] = []
accepted tables label (m ∷ ms) =
    let rest = accepted tables label ms in if accepts tables label m.value then m ∷ rest else rest

-- `str(n)`: a number has no more digits than it counts, so its own size is fuel enough.
unfoldable pub digits_of : ℕ → ℕ → Text
digits_of zero n = (b'0' + n % 10) ∷ []
digits_of (suc fuel) n =
    let rest = digits_of fuel (n / 10) in
    if ltb n 10 then (b'0' + n) ∷ [] else rest ++ ((b'0' + n % 10) ∷ [])

abbrev pub placeholder : Text → ℕ → Text
placeholder label n = b'[' ∷ (label ++ b'_' ∷ (digits_of n n ++ (b']' ∷ [])))

-- What one call of `mask_text` or `mask_messages` keeps: `vault_mapping`, `counters` and `seen`
pub record Issue : Type 0 where
  pub mapping : List (Text × Text)
  pub counters : List (Text × ℕ)
  pub seen : List ((Text × Text) × Text)

abbrev pub nothing_issued : Issue
nothing_issued = record { mapping = []; counters = []; seen = [] }

module _ {ℓ} {V : Type ℓ} where
  unfoldable pub value_of : Text → List (Text × V) → Option V
  value_of k [] = none
  value_of k ((j, v) ∷ t) = if same_text j k then some v else value_of k t

  unfoldable pub set_value : Text → V → List (Text × V) → List (Text × V)
  set_value k v [] = (k, v) ∷ []
  set_value k v ((j, w) ∷ t) = if same_text j k then (j, v) ∷ t else (j, w) ∷ set_value k v t

unfoldable pub seen_token : Text → Text → List ((Text × Text) × Text) → Option Text
seen_token label value [] = none
seen_token label value (((l, v), token) ∷ t) =
    if same_text l label && same_text v value then some token else seen_token label value t

abbrev pub count_of : Text → Issue → ℕ
count_of label s = get_or (value_of label s.counters) 0

-- A value that has no placeholder yet gets the next one of its label.
unfoldable pub issue_new : Text → Text → Issue → Text × Issue
issue_new label value s =
    let n = suc (count_of label s) in
    let token = placeholder label n in
    (
      token,
      record {
        mapping = set_value token value s.mapping;
        counters = set_value label n s.counters;
        seen = ((label, value), token) ∷ s.seen;
      },
    )

unfoldable pub issue : Text → Text → Issue → Text × Issue
issue label value s = elim (seen_token label value s.seen) [
  | some token ↦ (token, s)
  | none ↦ issue_new label value s
]

-- The loop over the matches, in reading order
unfoldable pub issue_all : Text → List Match → Issue → List (Match × Text) × Issue
issue_all label [] s = ([], s)
issue_all label (m ∷ ms) s =
    let first = issue label m.value s in
    let rest = issue_all label ms first.1 in ((m, first.0) ∷ rest.0, rest.1)

-- The substitution, from the last match to the first
unfoldable pub substitute : List (Match × Text) → Text → Text
substitute [] t = t
substitute ((m, token) ∷ ms) t =
    let done = substitute ms t in take m.start done ++ (token ++ drop m.stop done)

-- `_mask_one`
unfoldable pub mask_one : CharTables → List PiiPattern → Text → Issue → Text × Issue
mask_one tables [] t s = (t, s)
mask_one tables (p ∷ ps) t s =
    let issued =
      issue_all p.label (accepted tables p.label (matches_from p.pattern 0 none 0 t)) s in
    mask_one tables ps (substitute issued.0 t) issued.1

unfoldable pub mask_text : CharTables → Text → Text × List (Text × Text)
mask_text tables [] = ([], [])
mask_text tables (c ∷ t) =
    let masked = mask_one tables (pii_patterns tables) (c ∷ t) nothing_issued in
    (masked.0, masked.1.mapping)

-- An absent role or content is an empty one.
unfoldable pub mask_all : CharTables → List Message → Issue → List Message × Issue
mask_all tables [] s = ([], s)
mask_all tables (m ∷ ms) s =
    let masked =
      if is_empty m.content
      then (m.content, s)
      else mask_one tables (pii_patterns tables) m.content s in
    let rest = mask_all tables ms masked.1 in
    (record { role = m.role; content = masked.0 } ∷ rest.0, rest.1)

unfoldable pub mask_messages : CharTables → List Message → List Message × List (Text × Text)
mask_messages tables ms =
    let masked = mask_all tables ms nothing_issued in (masked.0, masked.1.mapping)

-- `PiiSanitizer.sanitize_text`: no vault, and no way back
unfoldable pub sanitize_by : List PiiPattern → Text → Text
sanitize_by [] t = t
sanitize_by (p ∷ ps) t =
    sanitize_by ps (sub_from p.pattern (codes "[" ++ (p.label ++ codes "_REDACTED]")) none 0 t)

unfoldable pub sanitize_text : CharTables → Text → Text
sanitize_text tables [] = []
sanitize_text tables (c ∷ t) = sanitize_by (pii_patterns tables) (c ∷ t)

unfoldable pub sanitize_messages : CharTables → List Message → List Message
sanitize_messages tables [] = []
sanitize_messages tables (m ∷ ms) =
    record { role = m.role; content = sanitize_text tables m.content } ∷ sanitize_messages tables ms
