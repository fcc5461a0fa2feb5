-- ===== src/Pii/Shapes.antt =====
-- The classes of characters and the phrases that the patterns of gateway/policy/pii.py share.
use llm_gateway_with_cost_co.Prelude.{Bool, is_some, leb, map, ℕ, ◌&&◌, ◌==◌, ◌∷◌, ◌||◌, []}
use llm_gateway_with_cost_co.Regex.{
  is_upper, is_alnum, Regex, star, seq, at_least, one, is_digit, any_of, optional, is_one_of,
  any_case, in_order, literal, one_any_case, times,
}
use llm_gateway_with_cost_co.Pii.{CharTables, digit_value}
use llm_gateway_with_cost_co.Text.{Text, is_space, codes}

-- `\d`
abbrev pub decimal : CharTables → ℕ → Bool
decimal tables c = is_some (digit_value tables c)

abbrev pub lower_letter : ℕ → Bool
lower_letter c = leb b'a' c && leb c b'z'

abbrev pub letter : ℕ → Bool
letter c = is_upper c || lower_letter c

-- [a-zA-Z0-9-], and the classes of the pattern that add to it
abbrev pub host_char : ℕ → Bool
host_char c = is_alnum c || c == b'-'

abbrev pub host_or_dot : ℕ → Bool
host_or_dot c = host_char c || c == b'.'

abbrev pub padded_user_char : ℕ → Bool
padded_user_char c = host_char c || c == b'_' || c == b'+'

abbrev pub user_char : ℕ → Bool
user_char c = padded_user_char c || c == b'.'

abbrev pub token_letter : ℕ → Bool
token_letter c = host_char c || c == b'_'

abbrev pub credential_letter : ℕ → Bool
credential_letter c = token_letter c || c == b'.'

abbrev pub capital_or_digit : ℕ → Bool
capital_or_digit c = is_upper c || is_digit c

abbrev pub any_space : Regex
any_space = star (one is_space)

abbrev pub some_space : Regex
some_space = at_least 1 (one is_space)

-- A word in brackets, in parentheses or between some_space
abbrev pub marker : Text → Regex
marker word = any_of (
    in_order (literal (codes "[") ∷ any_case word ∷ literal (codes "]") ∷ [])
    ∷ in_order (literal (codes "(") ∷ any_case word ∷ literal (codes ")") ∷ [])
    ∷ in_order (one is_space ∷ any_case word ∷ one is_space ∷ [])
    ∷ [])

abbrev pub separator : Regex
separator = one (is_one_of (codes "-. "))

abbrev pub month_name : Regex
month_name =
    seq
      (any_of (
        map any_case (
          codes "jan"
          ∷ codes "feb"
          ∷ codes "mar"
          ∷ codes "apr"
          ∷ codes "may"
          ∷ codes "jun"
          ∷ codes "jul"
          ∷ codes "aug"
          ∷ codes "sep"
          ∷ codes "oct"
          ∷ codes "nov"
          ∷ codes "dec"
          ∷ [])))
      (star (one_any_case lower_letter))

-- A number of one or two digits up to 31, and one of two digits
abbrev pub day : Regex → Regex
day digit = any_of (
    seq (optional (literal (codes "0"))) (one (λ c. leb b'1' c && leb c b'9'))
    ∷ seq (one (is_one_of (codes "12"))) digit
    ∷ seq (literal (codes "3")) (one (is_one_of (codes "01")))
    ∷ [])

abbrev pub two_digit_day : Regex → Regex
two_digit_day digit = any_of (
    seq (literal (codes "0")) (one (λ c. leb b'1' c && leb c b'9'))
    ∷ seq (one (is_one_of (codes "12"))) digit
    ∷ seq (literal (codes "3")) (one (is_one_of (codes "01")))
    ∷ [])

-- 25[0-5]|2[0-4]\d|1\d{2}|[1-9]?\d
abbrev pub octet : Regex → Regex
octet digit = any_of (
    seq (literal (codes "25")) (one (λ c. leb b'0' c && leb c b'5'))
    ∷ in_order (literal (codes "2") ∷ one (λ c. leb b'0' c && leb c b'4') ∷ digit ∷ [])
    ∷ seq (literal (codes "1")) (times 2 digit)
    ∷ seq (optional (one (λ c. leb b'1' c && leb c b'9'))) digit
    ∷ [])
