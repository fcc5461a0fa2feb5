-- ===== src/Pii/Examples.antt =====
-- Runs of the vault and the restorer, and an application of each property.
use llm_gateway_with_cost_co.Prelude.{arith, All, List, false, none, refl, some, true, ◌∷◌, ◌≡◌, []}
use llm_gateway_with_cost_co.Regex.{
  ends, match_at, in_order, is_word, literal, any_of, at_least, times, at_most, between, optional,
  any_case, is_one_of, sub_from,
}
use llm_gateway_with_cost_co.Text.{is_space, codes, Text}
use llm_gateway_with_cost_co.Pii.{luhn_valid, decimals, luhn_total, doubled, CharTables}
use llm_gateway_with_cost_co.Pii.Patterns.{
  pii_patterns, email, email_obfuscated, email_spaced, credit_card, iban, ssn, phone, ip_address,
  dob, passport, aws_key, jwt, bearer,
}
use llm_gateway_with_cost_co.Pii.Vault.{
  mask_text, mask_one, mask_all, issue_all, issue, issue_new, seen_token, set_value, value_of,
  substitute, accepted, accepts, matches_from, keep_decimals, digits_of, nothing_issued,
  sanitize_text, sanitize_by, Match,
}
use llm_gateway_with_cost_co.Pii.Restorer.{
  restore_text, restore_from, first_alternative, alternatives, longest_first, insert_by_length,
  placeholder_pattern, rpartition, last_underscore, strip_brackets, drop_brackets,
  drop_last_brackets, restore_stream, feed_texts, feed_text, flush_text, token_boundary,
  last_bracket, has_code, new_restorer,
}
use llm_gateway_with_cost_co.Pii.CheckDigit.{luhn_catches_one_digit}
use llm_gateway_with_cost_co.Pii.Vault.Issued.{masked_values_map_back, Sound}
use llm_gateway_with_cost_co.Pii.Restorer.Tail.{restore_stream-Whole, Whole, Held}
use llm_gateway_with_cost_co.Adapter.{Message}

-- Code points beyond ASCII are not looked at in these texts.
abbrev ascii : CharTables
ascii = record { wide_word = λ c. false; wide_digit = λ c. none }

card_is_valid : luhn_valid ascii (codes "4111111111111111") ≡ true
unfolding luhn_valid decimals luhn_total doubled
card_is_valid = refl

luhn_catches_one_digit_example : luhn_valid ascii (codes "4111112111111111") ≡ false
luhn_catches_one_digit_example =
    luhn_catches_one_digit ascii (codes "411111") (codes "111111111") b'1' b'2' 1 2 refl refl
      (ground arith) (ground arith) (λ e. absurd (ground (arith, e))) card_is_valid

abbrev mapping : List (Text × Text)
mapping = (codes "[EMAIL_1]", codes "a@b.co") ∷ (codes "[PHONE_1]", codes "5551234567") ∷ []

masked :
    mask_text ascii (codes "a@b.co, 5551234567 and a@b.co")
    ≡ (codes "[EMAIL_1], [PHONE_1] and [EMAIL_1]", mapping)
unfolding mask_text mask_one issue_all issue issue_new seen_token set_value value_of substitute
    accepted accepts matches_from keep_decimals digits_of pii_patterns email email_obfuscated
    email_spaced credit_card iban ssn phone ip_address dob passport aws_key jwt bearer luhn_valid
    decimals luhn_total doubled ends match_at in_order is_word literal any_of at_least times at_most
    between optional any_case is_one_of is_space
masked = refl

not_a_card : mask_text ascii (codes "order 4111111111111112") ≡ (codes "order 4111111111111112", [])
unfolding mask_text mask_one issue_all issue issue_new seen_token set_value value_of substitute
    accepted accepts matches_from keep_decimals digits_of pii_patterns email email_obfuscated
    email_spaced credit_card iban ssn phone ip_address dob passport aws_key jwt bearer luhn_valid
    decimals luhn_total doubled ends match_at in_order is_word literal any_of at_least times at_most
    between optional any_case is_one_of is_space
not_a_card = refl

restored_loosely :
    restore_text ascii mapping (codes "to [email 1] or PHONE_1") ≡ codes "to a@b.co or 5551234567"
unfolding restore_text restore_from first_alternative alternatives longest_first insert_by_length
    placeholder_pattern rpartition last_underscore strip_brackets drop_brackets drop_last_brackets
    ends match_at in_order is_word literal any_of at_least times at_most between optional any_case
    is_one_of is_space
restored_loosely = refl

restored_in_pieces :
    (restore_stream ascii (codes "to [EMA" ∷ codes "IL_1] now" ∷ []) (new_restorer mapping)).0
    ≡ codes "to a@b.co now"
unfolding restore_stream feed_texts feed_text flush_text token_boundary last_bracket has_code
    restore_text restore_from first_alternative alternatives longest_first insert_by_length
    placeholder_pattern rpartition last_underscore strip_brackets drop_brackets drop_last_brackets
    ends match_at in_order is_word literal any_of at_least times at_most between optional any_case
    is_one_of is_space
restored_in_pieces = refl

sanitized : sanitize_text ascii (codes "at 10.0.0.1") ≡ codes "at [IP_ADDRESS_REDACTED]"
unfolding sanitize_text sanitize_by sub_from pii_patterns email email_obfuscated email_spaced
    credit_card iban ssn phone ip_address dob passport aws_key jwt bearer ends match_at in_order
    is_word literal any_of at_least times at_most between optional any_case is_one_of is_space
sanitized = refl

-- The first address that was masked takes the place of the text that looks like its placeholder.
spelled_placeholder :
    let (masked_text, issued) = mask_text ascii (codes "say [EMAIL_1] to a@b.co") in
    restore_text ascii issued masked_text ≡ codes "say a@b.co to a@b.co"
unfolding mask_text mask_one issue_all issue issue_new seen_token set_value value_of substitute
    accepted accepts matches_from keep_decimals digits_of pii_patterns email email_obfuscated
    email_spaced credit_card iban ssn phone ip_address dob passport aws_key jwt bearer luhn_valid
    decimals luhn_total doubled ends match_at in_order is_word literal any_of at_least times at_most
    between optional any_case is_one_of is_space restore_text restore_from first_alternative
    alternatives longest_first insert_by_length placeholder_pattern rpartition last_underscore
    strip_brackets drop_brackets drop_last_brackets
spelled_placeholder = refl

abbrev found : List Match
found = record { start = 0; stop = 6; value = codes "a@b.co" } ∷ []

abbrev later : List Message
later = record { role = "user"; content = codes "b@b.co" } ∷ []

masked_values_map_back_example :
    let issued = issue_all (codes "EMAIL") found nothing_issued in
    let final = (mask_all ascii later issued.1).1 in
    Sound final × All (λ (m, token). value_of token final.mapping ≡ some m.value) issued.0
masked_values_map_back_example =
    masked_values_map_back ascii (codes "EMAIL") found later nothing_issued tt

restore_stream-Whole_example :
    Whole ascii mapping
      (codes "to [EMAIL_1] now")
      (restore_stream ascii (codes "to [EMA" ∷ codes "IL_1] now" ∷ []) (new_restorer mapping))
    × Held
        (feed_texts ascii
          (codes "to [EMA" ∷ codes "IL_1] now" ∷ [])
          (new_restorer mapping)).1.pending
restore_stream-Whole_example =
    restore_stream-Whole ascii mapping (codes "to [EMA" ∷ codes "IL_1] now" ∷ [])
