-- ===== src/Gateway/Answers.antt =====
-- What `chat_completions` (gateway/main.py) sends without streaming: a backend's answer, screened,
-- repaired, cached and restored; and an answer from the cache, whole or replayed as a stream.
use llm_gateway_with_cost_co.Prelude.{
  Bool, List, Option, String, false, if◌then◌else◌, inl, inr, none, not, some, true, ℕ, ◌&&◌, ◌++◌,
  ◌∷◌, ◌==◌, ◌||◌, ◌⊎◌, [], map, ◌+◌,
}
mod Hits
mod Examples
use llm_gateway_with_cost_co.Guardrails.{GuardrailsPipeline, is_leak, sanitize_completion}
use llm_gateway_with_cost_co.Guardrails.Json.{repair_json}
use llm_gateway_with_cost_co.Text.{Text, codes, is_empty, join}
use llm_gateway_with_cost_co.Pii.{CharTables}
use llm_gateway_with_cost_co.Pii.Restorer.{restore_text}
use llm_gateway_with_cost_co.Adapter.{Message, Response}
use llm_gateway_with_cost_co.Cache.{Fingerprint, Kwargs, PromptCache, set}
use llm_gateway_with_cost_co.Router.{Options}

pub record CompletionChoice : Type 0 where
  pub role : String
  pub content : Text

-- `response_dict`: the time of its creation, and what is the same in every one, are left out.
pub record Completion : Type 0 where
  pub id : String
  pub model : String
  pub choices : List CompletionChoice
  pub prompt_tokens : ℕ
  pub completion_tokens : ℕ
  pub total_tokens : ℕ

unfoldable pub json_requested : Options → Bool
json_requested o = o.json_object || o.json_mode

unfoldable pub sanitized_contents : GuardrailsPipeline → List Message → List Text
sanitized_contents p [] = []
sanitized_contents p (m ∷ ms) = sanitize_completion p m.content ∷ sanitized_contents p ms

-- `zip(backend_response.messages, sanitized_contents)`
unfoldable pub choices_of : List Message → List Text → List CompletionChoice
choices_of [] ts = []
choices_of (m ∷ ms) [] = []
choices_of (m ∷ ms) (t ∷ ts) = record { role = m.role; content = t } ∷ choices_of ms ts

unfoldable pub completion : Response → List Text → Completion
completion r contents = record {
  id = r.id;
  model = r.model;
  choices = choices_of r.messages contents;
  prompt_tokens = r.prompt_tokens;
  completion_tokens = r.completion_tokens;
  total_tokens = r.prompt_tokens + r.completion_tokens;
}

-- The loop of the JSON mode: the contents, and `all_valid`
unfoldable pub repair_all : (Text → Bool) → List Text → List Text × Bool
repair_all loads [] = ([], true)
repair_all loads (t ∷ ts) =
    let (u, is_valid) = repair_json loads t in
    let (us, all_valid) = repair_all loads ts in (u ∷ us, is_valid && all_valid)

unfoldable pub repaired : (Text → Bool) → Options → List Text → List Text
repaired loads o ts = if json_requested o then (repair_all loads ts).0 else ts

module _ (tables : CharTables) (mapping : List (Text × Text)) where
  unfoldable pub restore_choices : List CompletionChoice → List CompletionChoice
  restore_choices [] = []
  restore_choices (c ∷ cs) =
      record { role = c.role; content = restore_text tables mapping c.content } ∷ restore_choices cs

  unfoldable pub restore_completion : Completion → Completion
  restore_completion r = if is_empty mapping then r else record {
    id = r.id;
    model = r.model;
    choices = restore_choices r.choices;
    prompt_tokens = r.prompt_tokens;
    completion_tokens = r.completion_tokens;
    total_tokens = r.total_tokens;
  }

  -- The loop over the choices of a hit, which leaves an empty content as it is
  unfoldable pub restore_hit : List CompletionChoice → List CompletionChoice
  restore_hit [] = []
  restore_hit (c ∷ cs) =
      (if is_empty c.content
        then c
        else record { role = c.role; content = restore_text tables mapping c.content })
      ∷ restore_hit cs

  -- A hit that is not streamed
  unfoldable pub cached_answer : Completion → Completion
  cached_answer r = if is_empty mapping then r else record {
    id = r.id;
    model = r.model;
    choices = restore_hit r.choices;
    prompt_tokens = r.prompt_tokens;
    completion_tokens = r.completion_tokens;
    total_tokens = r.total_tokens;
  }

abbrev pub space : ℕ
space = 32

-- `content.split(" ")`, the first word apart from the others
unfoldable pub split_words : Text → Text × List Text
split_words [] = ([], [])
split_words (c ∷ t) =
    let (word, words) = split_words t in
    if c == space then ([], word ∷ words) else (c ∷ word, words)

unfoldable pub spaced : List Text → List Text
spaced [] = []
spaced (word ∷ words) = (space ∷ word) ∷ spaced words

-- `cached_stream_generator`: the deltas it sends, and nothing where `choices[0]` raises
unfoldable pub cached_deltas :
    CharTables → List (Text × Text) → List CompletionChoice → Option (List Text)
cached_deltas tables mapping [] = none
cached_deltas tables mapping (c ∷ cs) =
    let content = if is_empty mapping then c.content else restore_text tables mapping c.content in
    let (word, words) = split_words content in some (word ∷ spaced words)

-- What is stored: the answer in masked form
unfoldable pub masked_answer : GuardrailsPipeline → (Text → Bool) → Options → Response → Completion
masked_answer p loads options r =
    completion r (repaired loads options (sanitized_contents p r.messages))

module _ (p : GuardrailsPipeline) (tables : CharTables) (loads : Text → Bool)
    (fingerprint : Fingerprint) (now : ℕ) (messages : List Message) (kwargs : Kwargs)
    (options : Options) where
  -- What follows the record of the spend: a status, or what is returned; and the cache
  unfoldable pub deliver :
      List (Text × Text)
      → Response
      → PromptCache Completion
      → (ℕ ⊎ Completion) × PromptCache Completion
  deliver mapping r c =
      if is_leak p (join (codes "\n") (sanitized_contents p r.messages)) then (inl 400, c) else (
        inr (restore_completion tables mapping (masked_answer p loads options r)),
        set fingerprint now messages kwargs (masked_answer p loads options r) c,
      )
