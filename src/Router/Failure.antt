-- ===== src/Router/Failure.antt =====
-- How an adapter's failure is read (gateway/policy/router.py): throttling or breakage, and for how
-- long to back off. `text` is `str(exc)`; a `Retry-After` header is `none` inside when its value is
-- no number of seconds.
use llm_gateway_with_cost_co.Prelude.{
  Bool, List, Option, false, none, pos_part, some, ℕ, ℤ, ◌==◌, ◌∷◌, ◌||◌, [],
}
use llm_gateway_with_cost_co.Text.{lower, Text, contains, codes}

pub record Failure : Type 0 where
  pub status_code : Option ℕ
  pub text : Text
  pub retry_after : Option (Option ℤ)

abbrev pub rate_limit_markers : List Text
rate_limit_markers =
    codes "429"
    ∷ codes "rate limit"
    ∷ codes "rate_limit"
    ∷ codes "too many requests"
    ∷ codes "quota exceeded"
    ∷ []

any_marker : List Text → Text → Bool
any_marker [] text = false
any_marker (m ∷ ms) text = contains m text || any_marker ms text

unfoldable pub is_rate_limit_error : Failure → Bool
unfolding any_marker lower
is_rate_limit_error e = elim e.status_code [
  | none ↦ any_marker rate_limit_markers (lower e.text)
  | some status ↦ status == 429 || any_marker rate_limit_markers (lower e.text)
]

-- `max(0.0, float(raw))`, in milliseconds
pub retry_after_seconds : Failure → Option ℕ
retry_after_seconds e = elim e.retry_after [
  | none ↦ none
  | some raw ↦ elim raw [ none ↦ none | some v ↦ some (pos_part v) ]
]
