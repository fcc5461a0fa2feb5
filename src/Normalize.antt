-- ===== src/Normalize.antt =====
-- The canonical forms of gateway/policy/normalize.py, for matching only. What Unicode says of a text,
-- its NFKC form and its case folding, is a parameter.
use llm_gateway_with_cost_co.Prelude.{
  Bool, List, if◌then◌else◌, leb, map, none, ℕ, ◌&&◌, ◌==◌, ◌∷◌, [], ◌||◌,
}
use llm_gateway_with_cost_co.Regex.{
  Regex, fold, is_digit, boundary, sub_from, in_order, after, at_least, sub_by, is_word, ahead, one,
  seq, is_one_of, star,
}
use llm_gateway_with_cost_co.Text.{Text, is_empty, is_space, codes, strip}

pub record UnicodeForms : Type 0 where
  pub nfkc : Text → Text
  pub casefold : Text → Text

-- `_INVISIBLE`
abbrev pub is_invisible : ℕ → Bool
is_invisible c =
    c == 173
    || leb 8203 c && leb c 8207
    || c == 8288
    || c == 65279
    || leb 8234 c && leb c 8239
    || leb 8294 c && leb c 8297

unfoldable pub drop_invisible : Text → Text
drop_invisible [] = []
drop_invisible (c ∷ t) = let rest = drop_invisible t in if is_invisible c then rest else c ∷ rest

-- A table of replacements, `d.get(ch, ch)`
unfoldable pub replaced : List (ℕ × ℕ) → ℕ → ℕ
replaced [] c = c
replaced ((from, to) ∷ table) c = if c == from then to else replaced table c

-- `_HOMOGLYPHS`: Cyrillic and Greek letters that look like Latin ones
abbrev pub homoglyphs : List (ℕ × ℕ)
homoglyphs =
    (1072, b'a')
    ∷ (1077, b'e')
    ∷ (1086, b'o')
    ∷ (1088, b'p')
    ∷ (1089, b'c')
    ∷ (1093, b'x')
    ∷ (1109, b's')
    ∷ (1110, b'i')
    ∷ (959, b'o')
    ∷ (945, b'a')
    ∷ (949, b'e')
    ∷ (961, b'p')
    ∷ []

-- `_LEET`
abbrev pub leet : List (ℕ × ℕ)
leet =
    (b'0', b'o')
    ∷ (b'1', b'i')
    ∷ (b'3', b'e')
    ∷ (b'4', b'a')
    ∷ (b'5', b's')
    ∷ (b'7', b't')
    ∷ (b'@', b'a')
    ∷ (b'$', b's')
    ∷ []

abbrev is_lower : ℕ → Bool
is_lower c = leb b'a' c && leb c b'z'

abbrev is_lower_any_case : ℕ → Bool
is_lower_any_case c = is_lower (fold c)

unfoldable pub intra_word_separators : Regex
intra_word_separators =
    in_order (after is_lower ∷ one (is_one_of (codes "-._*|")) ∷ ahead (one is_lower) ∷ [])

unfoldable pub leet_between_letters : Regex
leet_between_letters = in_order (
    after is_lower_any_case
    ∷ one (is_one_of (codes "013457@$"))
    ∷ ahead (one is_lower_any_case)
    ∷ [])

abbrev leet_token_char : ℕ → Bool
leet_token_char c = is_lower (fold c) || is_digit c || c == b'@' || c == b'$'

unfoldable pub leet_token : (ℕ → Bool) → Regex
leet_token wide =
    let edge = boundary (is_word wide) in
    in_order (
      edge
      ∷ ahead (seq (star (one leet_token_char)) (one is_lower_any_case))
      ∷ at_least 1 (one leet_token_char)
      ∷ edge
      ∷ [])

-- `_base_normalize` behind the NFKC form
unfoldable pub fold_form : UnicodeForms → Text → Text
fold_form forms t =
    let visible = map (replaced homoglyphs) (drop_invisible t) in
    let spaced = sub_from (at_least 1 (one is_space)) (codes " ") none 0 (forms.casefold visible) in
    strip (sub_from intra_word_separators [] none 0 spaced)

unfoldable pub base_normalize : UnicodeForms → Text → Text
base_normalize forms t = fold_form forms (forms.nfkc t)

unfoldable pub normalize_for_matching : UnicodeForms → Text → Text
normalize_for_matching forms t =
    if is_empty t
    then t
    else sub_by leet_between_letters (map (replaced leet)) none 0 (base_normalize forms t)

unfoldable pub normalize_aggressive : UnicodeForms → (ℕ → Bool) → Text → Text
normalize_aggressive forms wide t =
    if is_empty t
    then t
    else sub_by (leet_token wide) (map (replaced leet)) none 0 (base_normalize forms t)

unfoldable pub matching_variants : UnicodeForms → (ℕ → Bool) → Text → List Text
matching_variants forms wide t =
    if is_empty t
    then t ∷ []
    else t ∷ normalize_for_matching forms t ∷ normalize_aggressive forms wide t ∷ []
