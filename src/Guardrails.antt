-- ===== src/Guardrails.antt =====
-- The output guardrails of gateway/policy/guardrails.py: what is redacted, what counts as a leak,
-- and the filter that applies both to an answer arriving in pieces.
use llm_gateway_with_cost_co.Prelude.{
  arith, Bool, List, Option, drop, false, if◌then◌else◌, leb, length, ltb, map, none, some, take,
  true, ℕ, ◌&&◌, ◌++◌, ◌+◌, ◌-◌, ◌==◌, ◌∷◌, [], ◌||◌,
}
pub mod Patterns
mod Boundary
pub mod Pieces
pub mod Json
mod Examples
use llm_gateway_with_cost_co.Regex.{
  boundary, is_alnum, is_upper, Regex, match_end, is_digit, sub_from, at_least, search_from, any_of,
  is_word, starts_from, any_case, one, in_order, optional, literal, is_one_of, seq, fold, times,
  star,
}
use llm_gateway_with_cost_co.Text.{Text, codes, is_space, same_text}

pub record SecretPattern : Type 0 where
  pub label : Text
  pub pattern : Regex

-- `GuardrailsPipeline`, with the patterns that its constructor compiles
pub record GuardrailsPipeline : Type 0 where
  pub output_secret_patterns : List SecretPattern
  pub output_leak_patterns : List Regex

-- The first characters of every secret
unfoldable pub secret_starters : Regex
secret_starters = any_of (
    any_case (codes "sk-")
    ∷ any_case (codes "akia")
    ∷ any_case (codes "asia")
    ∷ in_order (
        any_case (codes "gh")
        ∷ one (λ c. is_one_of (codes "pousr") (fold c))
        ∷ literal (codes "_")
        ∷ [])
    ∷ in_order (
        any_case (codes "xox")
        ∷ one (λ c. is_one_of (codes "baprs") (fold c))
        ∷ literal (codes "-")
        ∷ [])
    ∷ any_case (codes "eyj")
    ∷ seq (any_case (codes "bearer")) (one is_space)
    ∷ [])

abbrev pub min_holdback : ℕ
min_holdback = 6

abbrev pub max_secret_span : ℕ
max_secret_span = 512

abbrev pub redaction : Text → Text
redaction label = codes "[" ++ (label ++ codes "_REDACTED]")

-- The loop of `sanitize_completion`: one pass of each pattern over what the last one left
unfoldable pub redact : List SecretPattern → Text → Text
redact [] t = t
redact (s ∷ ss) t = redact ss (sub_from s.pattern (redaction s.label) none 0 t)

unfoldable pub sanitize_completion : GuardrailsPipeline → Text → Text
sanitize_completion p [] = []
sanitize_completion p (c ∷ t) = redact p.output_secret_patterns (c ∷ t)

unfoldable pub some_leak : List Regex → Text → Bool
some_leak [] t = false
some_leak (r ∷ rs) t = search_from r none t || some_leak rs t

-- `_is_leak`: whether `validate_completion` raises
unfoldable pub is_leak : GuardrailsPipeline → Text → Bool
is_leak p [] = false
is_leak p (c ∷ t) = some_leak p.output_leak_patterns (c ∷ t)

-- The places where `_SECRET_STARTERS.finditer(text, window)` finds a starter
unfoldable pub starters : Text → List ℕ
starters text =
    let window = length text - max_secret_span in
    starts_from secret_starters window none 0 (drop window text)

-- The end of the first secret that has matched in full, with text after it
unfoldable pub finished_secret : List SecretPattern → Text → Option ℕ
finished_secret [] tail = none
finished_secret (s ∷ ss) tail =
    let later = finished_secret ss tail in
    elim (match_end s.pattern tail) [
      | some e ↦ if ltb e (length tail) then some e else later
      | none ↦ later
    ]

-- Whether the secret that starts here ends within what is to be sent
abbrev pub ends_within : Option ℕ → ℕ → ℕ → Bool
ends_within none start limit = false
ends_within (some e) start limit = leb (start + e) limit

-- The loop over the starters, on the boundary so far
unfoldable pub hold_back : List SecretPattern → Text → ℕ → List ℕ → ℕ
hold_back ps text limit [] = limit
hold_back ps text limit (start ∷ ss) =
    if leb limit start
    then limit
    else hold_back ps text
        (if ends_within (finished_secret ps (drop start text)) start limit then limit else start) ss

unfoldable pub emit_boundary : GuardrailsPipeline → Text → ℕ
emit_boundary p text =
    hold_back p.output_secret_patterns text (length text - min_holdback) (starters text)

-- `StreamingOutputFilter`
pub record OutputFilter : Type 0 where
  pub pending : Text
  pub released : Text
  pub leaked : Bool
  pub redacted : Bool

abbrev pub new_filter : OutputFilter
new_filter = record { pending = []; released = []; leaked = false; redacted = false }

-- `_release`: what it returns, and the filter after it
unfoldable pub release : GuardrailsPipeline → Text → ℕ → OutputFilter → Text × OutputFilter
release p raw consumed f =
    let safe = sanitize_completion p raw in
    (
      safe,
      record {
        pending = drop consumed f.pending;
        released = f.released ++ safe;
        leaked = f.leaked;
        redacted = if same_text safe raw then f.redacted else true;
      },
    )

abbrev pub stop_sending : OutputFilter → OutputFilter
stop_sending f = record {
  pending = [];
  released = f.released;
  leaked = true;
  redacted = f.redacted;
}

abbrev pub receive : Text → OutputFilter → OutputFilter
receive delta f = record {
  pending = f.pending ++ delta;
  released = f.released;
  leaked = f.leaked;
  redacted = f.redacted;
}

-- `feed` from where the piece has been taken in
unfoldable pub screen : GuardrailsPipeline → OutputFilter → Text × OutputFilter
screen p f =
    let limit = emit_boundary p f.pending in
    if is_leak p (f.released ++ f.pending)
    then ([], stop_sending f)
    else release p (take limit f.pending) limit f

unfoldable pub feed : GuardrailsPipeline → Text → OutputFilter → Text × OutputFilter
feed p delta f = if f.leaked then ([], f) else screen p (receive delta f)

unfoldable pub flush : GuardrailsPipeline → OutputFilter → Text × OutputFilter
flush p f =
    if f.leaked
    then ([], f)
    else if is_leak p (f.released ++ f.pending)
    then ([], stop_sending f)
    else release p f.pending (length f.pending) f

-- The answer's pieces one after the other, then the flush
unfoldable pub stream : GuardrailsPipeline → List Text → OutputFilter → Text × OutputFilter
stream p [] f = flush p f
stream p (delta ∷ ds) f =
    let fed = feed p delta f in let rest = stream p ds fed.1 in (fed.0 ++ rest.0, rest.1)

-- `text`
abbrev pub seen_text : OutputFilter → Text
seen_text f = f.released ++ f.pending
