-- ===== src/Pii/Patterns.antt =====
-- The patterns that `PiiVault` compiles (gateway/policy/pii.py), in the order in which they run.
use llm_gateway_with_cost_co.Prelude.{Bool, List, leb, ℕ, ◌&&◌, ◌∷◌, []}
use llm_gateway_with_cost_co.Text.{Text, codes}
use llm_gateway_with_cost_co.Pii.{CharTables}
use llm_gateway_with_cost_co.Regex.{
  Regex, boundary, in_order, one, alt, at_least, is_one_of, any_of, any_case, between, times,
  literal, is_word, is_upper, seq, one_any_case, star, optional, not_after, not_before,
}
use llm_gateway_with_cost_co.Pii.Shapes.{
  day, decimal, padded_user_char, user_char, any_space, capital_or_digit, some_space, octet,
  host_char, letter, host_or_dot, separator, lower_letter, token_letter, credential_letter, marker,
  two_digit_day, month_name,
}

pub record PiiPattern : Type 0 where
  pub label : Text
  pub pattern : Regex

unfoldable pub email : Regex → Regex
email edge = in_order (
    edge
    ∷ at_least 1 (one user_char)
    ∷ literal (codes "@")
    ∷ at_least 1 (one host_char)
    ∷ literal (codes ".")
    ∷ star (one host_or_dot)
    ∷ one host_char
    ∷ edge
    ∷ [])

unfoldable pub email_obfuscated : Regex → Regex
email_obfuscated edge = in_order (
    edge
    ∷ at_least 1 (one_any_case user_char)
    ∷ any_space
    ∷ marker (codes "at")
    ∷ any_space
    ∷ at_least 1 (one_any_case host_char)
    ∷ any_space
    ∷ marker (codes "dot")
    ∷ any_space
    ∷ at_least 2 (one_any_case letter)
    ∷ edge
    ∷ [])

unfoldable pub email_spaced : Regex → Regex
email_spaced edge = in_order (
    edge
    ∷ at_least 1 (one padded_user_char)
    ∷ star (
        in_order
          (any_space ∷ literal (codes ".") ∷ any_space ∷ at_least 1 (one padded_user_char) ∷ []))
    ∷ any_space
    ∷ literal (codes "@")
    ∷ any_space
    ∷ at_least 1 (one host_char)
    ∷ any_space
    ∷ literal (codes ".")
    ∷ any_space
    ∷ at_least 2 (one letter)
    ∷ edge
    ∷ [])

unfoldable pub credit_card : Regex → Regex → Regex
credit_card edge digit =
    in_order (
      edge ∷ between 12 6 (seq digit (optional (one (is_one_of (codes " -"))))) ∷ digit ∷ edge ∷ [])

unfoldable pub iban : Regex → Regex → Regex
iban edge digit = in_order (
    edge
    ∷ times 2 (one is_upper)
    ∷ times 2 digit
    ∷ between 2 5 (seq (optional (literal (codes " "))) (times 4 (one capital_or_digit)))
    ∷ optional (seq (optional (literal (codes " "))) (between 1 2 (one capital_or_digit)))
    ∷ edge
    ∷ [])

unfoldable pub ssn : (ℕ → Bool) → Regex → Regex
ssn is_decimal digit =
    let dash = one (is_one_of (codes "- ")) in
    in_order (
      not_after is_decimal
      ∷ times 3 digit
      ∷ dash
      ∷ times 2 digit
      ∷ dash
      ∷ times 4 digit
      ∷ not_before is_decimal
      ∷ [])

unfoldable pub phone : (ℕ → Bool) → Regex → Regex
phone is_decimal digit =
    let country = in_order (literal (codes "+") ∷ between 1 2 digit ∷ optional separator ∷ []) in
    any_of (
      in_order (
        not_after is_decimal
        ∷ optional country
        ∷ alt (in_order (literal (codes "(") ∷ times 3 digit ∷ literal (codes ")") ∷ []))
            (times 3 digit)
        ∷ separator
        ∷ times 3 digit
        ∷ separator
        ∷ times 4 digit
        ∷ not_before is_decimal
        ∷ [])
      ∷ in_order (not_after is_decimal ∷ country ∷ between 6 6 digit ∷ not_before is_decimal ∷ [])
      ∷ in_order (not_after is_decimal ∷ times 10 digit ∷ not_before is_decimal ∷ [])
      ∷ [])

unfoldable pub ip_address : Regex → Regex → Regex
ip_address edge digit =
    in_order (edge ∷ times 3 (seq (octet digit) (literal (codes "."))) ∷ octet digit ∷ edge ∷ [])

unfoldable pub dob : Regex → Regex → Regex
dob edge digit = in_order (
    edge
    ∷ any_of (
        in_order (day digit ∷ some_space ∷ month_name ∷ some_space ∷ times 4 digit ∷ [])
        ∷ in_order (
            month_name
            ∷ some_space
            ∷ day digit
            ∷ optional (literal (codes ","))
            ∷ some_space
            ∷ times 4 digit
            ∷ [])
        ∷ in_order (
            times 4 digit
            ∷ literal (codes "-")
            ∷ alt (seq (literal (codes "0")) (one (λ c. leb b'1' c && leb c b'9')))
                (seq (literal (codes "1")) (one (is_one_of (codes "012"))))
            ∷ literal (codes "-")
            ∷ two_digit_day digit
            ∷ [])
        ∷ [])
    ∷ edge
    ∷ [])

unfoldable pub passport : Regex → Regex → Regex
passport edge digit = in_order (
    edge
    ∷ any_case (codes "passport")
    ∷ any_space
    ∷ optional (
        any_of (
          any_case (codes "number")
          ∷ seq (any_case (codes "no")) (optional (literal (codes ".")))
          ∷ literal (codes "#")
          ∷ []))
    ∷ any_space
    ∷ optional (alt (any_case (codes "is")) (literal (codes ":")))
    ∷ any_space
    ∷ edge
    ∷ between 1 1 (one_any_case lower_letter)
    ∷ between 6 3 digit
    ∷ edge
    ∷ [])

unfoldable pub aws_key : Regex → Regex
aws_key edge = in_order (
    edge
    ∷ alt (literal (codes "AKIA")) (literal (codes "ASIA"))
    ∷ times 16 (one capital_or_digit)
    ∷ edge
    ∷ [])

unfoldable pub jwt : Regex → Regex
jwt edge = in_order (
    edge
    ∷ literal (codes "eyJ")
    ∷ star (one token_letter)
    ∷ literal (codes ".")
    ∷ star (one token_letter)
    ∷ literal (codes ".")
    ∷ star (one token_letter)
    ∷ edge
    ∷ [])

unfoldable pub bearer : Regex → Regex
bearer edge =
    in_order (
      edge
      ∷ literal (codes "Bearer")
      ∷ some_space
      ∷ at_least 20 (one credential_letter)
      ∷ edge
      ∷ [])

-- `PiiVault.patterns`
unfoldable pub pii_patterns : CharTables → List PiiPattern
pii_patterns tables =
    let edge = boundary (is_word tables.wide_word) in
    let digit = one (decimal tables) in
    record { label = codes "EMAIL"; pattern = email edge }
    ∷ record { label = codes "EMAIL_OBFUSCATED"; pattern = email_obfuscated edge }
    ∷ record { label = codes "EMAIL_SPACED"; pattern = email_spaced edge }
    ∷ record { label = codes "CREDIT_CARD"; pattern = credit_card edge digit }
    ∷ record { label = codes "IBAN"; pattern = iban edge digit }
    ∷ record { label = codes "SSN"; pattern = ssn (decimal tables) digit }
    ∷ record { label = codes "PHONE"; pattern = phone (decimal tables) digit }
    ∷ record { label = codes "IP_ADDRESS"; pattern = ip_address edge digit }
    ∷ record { label = codes "DOB"; pattern = dob edge digit }
    ∷ record { label = codes "PASSPORT"; pattern = passport edge digit }
    ∷ record { label = codes "AWS_KEY"; pattern = aws_key edge }
    ∷ record { label = codes "JWT"; pattern = jwt edge }
    ∷ record { label = codes "BEARER"; pattern = bearer edge }
    ∷ []
