-- ===== src/Screening/Hidden.antt =====
-- Characters that nobody sees do not hide an injection from `validate_messages`.
use llm_gateway_with_cost_co.Prelude.{
  arith, Bool, Bool-cases, List, false, inl, inr, refl, true, ℕ, ◌++◌, ◌∷◌, ◌≡◌, [],
}
use llm_gateway_with_cost_co.Normalize.{
  normalize_for_matching, base_normalize, UnicodeForms, fold_form, normalize_aggressive,
  matching_variants, drop_invisible,
}
use llm_gateway_with_cost_co.Screening.{refuses_messages, some_injection, some_search}
use llm_gateway_with_cost_co.Screening.Patterns.{injection_patterns}
use llm_gateway_with_cost_co.Adapter.{Message}
use llm_gateway_with_cost_co.Text.{Text, is_empty}
use llm_gateway_with_cost_co.Regex.{Regex}

-- The two canonical forms, without the text itself
abbrev pub canonical_forms : UnicodeForms → (ℕ → Bool) → Text → List Text
canonical_forms forms wide t =
    normalize_for_matching forms t ∷ normalize_aggressive forms wide t ∷ []

base_normalize_same :
    (forms : UnicodeForms) (t u : Text)
    → drop_invisible (forms.nfkc t) ≡ drop_invisible (forms.nfkc u)
    → base_normalize forms t ≡ base_normalize forms u
unfolding base_normalize fold_form
base_normalize_same forms t u h = rw h refl

canonical_forms_same :
    (forms : UnicodeForms) (wide : ℕ → Bool) (t u : Text)
    → is_empty t ≡ false
    → is_empty u ≡ false
    → drop_invisible (forms.nfkc t) ≡ drop_invisible (forms.nfkc u)
    → canonical_forms forms wide t ≡ canonical_forms forms wide u
unfolding normalize_for_matching normalize_aggressive
canonical_forms_same forms wide t u a b h = rw (a, b, base_normalize_same forms t u h) refl

some_injection-cons :
    (rs : List Regex) (t : Text) (ts : List Text)
    → some_injection rs ts ≡ true
    → some_injection rs (t ∷ ts) ≡ true
unfolding some_injection some_search
some_injection-cons [] t ts h = h
some_injection-cons (r ∷ rs) t ts h = elim (Bool-cases (some_search r ts)) [
  | inl q ↦ ground (arith, q)
  | inr q ↦ ground (arith, some_injection-cons rs t ts (ground (arith, h, q)))
]

refuses_messages-append :
    (forms : UnicodeForms) (wide : ℕ → Bool) (ms ns : List Message)
    → refuses_messages forms wide ns ≡ true
    → refuses_messages forms wide (ms ++ ns) ≡ true
unfolding refuses_messages
refuses_messages-append forms wide [] ns h = h
refuses_messages-append forms wide (m ∷ ms) ns h =
    ground (arith, refuses_messages-append forms wide ms ns h)

-- Take a text in whose canonical forms an injection is found. A message whose text differs from it,
-- after the NFKC form, in invisible characters only, is refused wherever it stands in the
-- conversation.
pub hidden_is_refused :
    (forms : UnicodeForms) (wide : ℕ → Bool) (plain : Text) (m : Message)
    (before later : List Message)
    → is_empty plain ≡ false
    → is_empty m.content ≡ false
    → drop_invisible (forms.nfkc m.content) ≡ drop_invisible (forms.nfkc plain)
    → some_injection (injection_patterns wide) (canonical_forms forms wide plain) ≡ true
    → refuses_messages forms wide (before ++ m ∷ later) ≡ true
unfolding refuses_messages matching_variants
hidden_is_refused forms wide plain m before later some_plain some_text same found =
    let forms_found : some_injection (injection_patterns wide)
          (canonical_forms forms wide m.content)
        ≡ true =
      rw (canonical_forms_same forms wide m.content plain some_text some_plain same) found in
    let refused =
      some_injection-cons (injection_patterns wide) m.content (canonical_forms forms wide m.content)
        forms_found in
    refuses_messages-append forms wide before (m ∷ later)
      (rw (some_text, refuses_messages) (ground (arith, refused)))
