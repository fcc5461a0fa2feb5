-- ===== src/Screening/Patterns.antt =====
-- The patterns of prompt injection that `GuardrailsPipeline` compiles
-- (gateway/policy/guardrails.py).
use llm_gateway_with_cost_co.Prelude.{Bool, List, map, not, ℕ, ◌==◌, ◌∷◌, [], ◌||◌}
use llm_gateway_with_cost_co.Regex.{
  Regex, epsilon, at_least, lazily_at_most, boundary, any_of, seq, one, any_case, is_word, in_order,
  optional, star, is_one_of, alt, at_most,
}
use llm_gateway_with_cost_co.Text.{Text, codes, is_space}

-- Words with white space between them, in any case
unfoldable pub phrase : List Text → Regex
phrase [] = epsilon
phrase (w ∷ []) = any_case w
phrase (w ∷ v ∷ ws) = in_order (any_case w ∷ at_least 1 (one is_space) ∷ phrase (v ∷ ws) ∷ [])

-- A word with any ending
abbrev stem : (ℕ → Bool) → Text → Regex
stem wide w = seq (any_case w) (star (one (is_word wide)))

abbrev words : List Text → Regex
words ws = any_of (map any_case ws)

unfoldable pub discard_verbs : (ℕ → Bool) → Regex
discard_verbs wide = any_of (
    stem wide (codes "ignor")
    ∷ stem wide (codes "disregard")
    ∷ any_case (codes "forget")
    ∷ stem wide (codes "overrid")
    ∷ stem wide (codes "bypass")
    ∷ stem wide (codes "discard")
    ∷ any_case (codes "skip")
    ∷ any_case (codes "drop")
    ∷ any_case (codes "delete")
    ∷ any_case (codes "erase")
    ∷ any_case (codes "abandon")
    ∷ phrase (codes "set" ∷ codes "aside" ∷ [])
    ∷ phrase (codes "pay" ∷ codes "no" ∷ codes "attention" ∷ codes "to" ∷ [])
    ∷ [])

-- `_INSTRUCTION_NOUNS` is an alternation without parentheses, so what follows it in a pattern that
-- gives it none belongs to its last word alone.
unfoldable pub instruction_nouns : (ℕ → Bool) → Regex → Regex
instruction_nouns wide ending = any_of (
    any_case (codes "instruction")
    ∷ any_case (codes "directive")
    ∷ any_case (codes "prompt")
    ∷ any_case (codes "rule")
    ∷ any_case (codes "guideline")
    ∷ any_case (codes "command")
    ∷ any_case (codes "order")
    ∷ any_case (codes "constraint")
    ∷ any_case (codes "restriction")
    ∷ any_case (codes "guardrail")
    ∷ seq (any_case (codes "polic")) (at_least 1 (one (is_word wide)))
    ∷ any_case (codes "training")
    ∷ seq (any_case (codes "programming")) ending
    ∷ [])

unfoldable pub prior_qualifiers : Regex
prior_qualifiers = words (
    codes "previous"
    ∷ codes "prior"
    ∷ codes "above"
    ∷ codes "earlier"
    ∷ codes "preceding"
    ∷ codes "foregoing"
    ∷ codes "initial"
    ∷ codes "original"
    ∷ codes "system"
    ∷ codes "all"
    ∷ codes "any"
    ∷ codes "your"
    ∷ codes "the"
    ∷ [])

-- [^.!?\n]{0,n}?
abbrev gap : ℕ → Regex
gap n = lazily_at_most n (one (λ c. not (is_one_of (codes ".!?") c || c == 10)))

abbrev some_space : Regex
some_space = at_least 1 (one is_space)

unfoldable pub injection_patterns : (ℕ → Bool) → List Regex
injection_patterns wide =
    let edge = boundary (is_word wide) in
    let s = optional (any_case (codes "s")) in
    in_order (
      edge
      ∷ discard_verbs wide
      ∷ edge
      ∷ gap 40
      ∷ edge
      ∷ prior_qualifiers
      ∷ edge
      ∷ gap 20
      ∷ edge
      ∷ instruction_nouns wide epsilon
      ∷ s
      ∷ edge
      ∷ [])
    ∷ in_order (
        edge
        ∷ discard_verbs wide
        ∷ edge
        ∷ gap 30
        ∷ edge
        ∷ words (codes "everything" ∷ codes "anything" ∷ codes "all" ∷ [])
        ∷ edge
        ∷ gap 30
        ∷ edge
        ∷ any_of (
            in_order (
              phrase (codes "you" ∷ codes "were" ∷ [])
              ∷ some_space
              ∷ words (codes "told" ∷ codes "instructed" ∷ codes "given" ∷ [])
              ∷ [])
            ∷ any_case (codes "before")
            ∷ any_case (codes "prior")
            ∷ any_case (codes "earlier")
            ∷ [])
        ∷ edge
        ∷ [])
    ∷ in_order (
        edge
        ∷ phrase (codes "you" ∷ codes "are" ∷ codes "now" ∷ [])
        ∷ some_space
        ∷ optional (seq (any_case (codes "in")) some_space)
        ∷ words (
            codes "developer"
            ∷ codes "debug"
            ∷ codes "god"
            ∷ codes "admin"
            ∷ codes "unrestricted"
            ∷ codes "unfiltered"
            ∷ codes "dan"
            ∷ [])
        ∷ star (one is_space)
        ∷ optional (any_case (codes "mode"))
        ∷ edge
        ∷ [])
    ∷ in_order (
        edge
        ∷ any_case (codes "jailbreak")
        ∷ star (one is_space)
        ∷ optional (any_case (codes "mode"))
        ∷ edge
        ∷ [])
    ∷ in_order (
        edge
        ∷ phrase (codes "act" ∷ codes "as" ∷ [])
        ∷ some_space
        ∷ alt (any_case (codes "dan")) (
            in_order (
              any_case (codes "a")
              ∷ optional (any_case (codes "n"))
              ∷ some_space
              ∷ any_case (codes "unrestricted")
              ∷ []))
        ∷ edge
        ∷ [])
    ∷ in_order (
        edge
        ∷ any_of (
            any_case (codes "enable")
            ∷ any_case (codes "activate")
            ∷ any_case (codes "enter")
            ∷ phrase (codes "switch" ∷ codes "to" ∷ [])
            ∷ [])
        ∷ some_space
        ∷ words (
            codes "developer"
            ∷ codes "debug"
            ∷ codes "god"
            ∷ codes "dan"
            ∷ codes "unrestricted"
            ∷ codes "unfiltered"
            ∷ [])
        ∷ star (one is_space)
        ∷ any_case (codes "mode")
        ∷ edge
        ∷ [])
    ∷ in_order (
        edge
        ∷ any_of (
            words (
              codes "reveal"
              ∷ codes "show"
              ∷ codes "print"
              ∷ codes "output"
              ∷ codes "repeat"
              ∷ codes "display"
              ∷ [])
            ∷ phrase (codes "tell" ∷ codes "me" ∷ [])
            ∷ in_order (
                any_case (codes "what")
                ∷ some_space
                ∷ words (codes "is" ∷ codes "are" ∷ codes "were" ∷ [])
                ∷ [])
            ∷ [])
        ∷ edge
        ∷ gap 40
        ∷ edge
        ∷ words (codes "your" ∷ codes "the" ∷ [])
        ∷ edge
        ∷ gap 20
        ∷ edge
        ∷ any_of (
            phrase (codes "system" ∷ codes "prompt" ∷ [])
            ∷ instruction_nouns wide s
            ∷ in_order
                (any_case (codes "hidden") ∷ some_space ∷ at_least 1 (one (is_word wide)) ∷ [])
            ∷ [])
        ∷ edge
        ∷ [])
    ∷ in_order (
        edge
        ∷ any_case (codes "repeat")
        ∷ some_space
        ∷ optional (seq (any_case (codes "the")) some_space)
        ∷ words (codes "text" ∷ codes "words" ∷ codes "everything" ∷ [])
        ∷ some_space
        ∷ any_case (codes "above")
        ∷ edge
        ∷ [])
    ∷ in_order (
        edge
        ∷ any_case (codes "what")
        ∷ some_space
        ∷ words (codes "were" ∷ codes "was" ∷ [])
        ∷ some_space
        ∷ any_case (codes "you")
        ∷ some_space
        ∷ words (codes "told" ∷ codes "instructed" ∷ codes "programmed" ∷ [])
        ∷ edge
        ∷ at_most 30 (one (λ c. not (is_one_of (codes ".!?") c || c == 10)))
        ∷ edge
        ∷ phrase (codes "not" ∷ codes "to" ∷ [])
        ∷ edge
        ∷ [])
    ∷ []
