-- ===== src/Pii.antt =====
-- Personal data in gateway/policy/pii.py: the check digit of card numbers, and the tables of
-- characters that the patterns rest on.
use llm_gateway_with_cost_co.Prelude.{
  ◌>>=◌, arith, Bool, List, Option, false, if◌then◌else◌, leb, length, ltb, none, some, suc, ℕ, ◌%◌,
  ◌&&◌, ◌*◌, ◌+◌, ◌-◌, ◌==◌, ◌∷◌, [],
}
mod CheckDigit
mod Shapes
pub mod Patterns
pub mod Vault
pub mod Restorer
mod Examples
use llm_gateway_with_cost_co.Regex.{is_digit}
use llm_gateway_with_cost_co.Text.{Text}

-- What Unicode says of the code points beyond ASCII: which are word characters, and the value of
-- those that are decimal digits.
pub record CharTables : Type 0 where
  pub wide_word : ℕ → Bool
  pub wide_digit : ℕ → Option ℕ

-- `int(ch)` for a character that `\d` takes
abbrev pub digit_value : CharTables → ℕ → Option ℕ
digit_value tables c =
    if ltb c 128 then (if is_digit c then some (c - b'0') else none) else tables.wide_digit c

unfoldable pub decimals : CharTables → Text → Option (List ℕ)
decimals tables [] = some []
decimals tables (c ∷ t) = do d ← digit_value tables c; ds ← decimals tables t; some (d ∷ ds)

-- What a digit adds where it is doubled
unfoldable pub doubled : ℕ → ℕ
doubled d = let e = 2 * d in if ltb 9 e then e - 9 else e

-- The loop of `_luhn_valid`, from position `i` on
unfoldable pub luhn_total : ℕ → ℕ → List ℕ → ℕ
luhn_total parity i [] = 0
luhn_total parity i (d ∷ ds) =
    (if i % 2 == parity then doubled d else d) + luhn_total parity (suc i) ds

abbrev pub checks : List ℕ → Bool
checks ds = luhn_total (length ds % 2) 0 ds % 10 == 0

abbrev pub luhn_checks : Option (List ℕ) → Bool
luhn_checks none = false
luhn_checks (some ds) = checks ds

unfoldable pub luhn_valid : CharTables → Text → Bool
luhn_valid tables digits =
    leb 13 (length digits) && leb (length digits) 19 && luhn_checks (decimals tables digits)
