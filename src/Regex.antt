-- ===== src/Regex.antt =====
-- The part of Python's `re` that the policies use: a pattern as data, and the places where a match
-- of it can end, in the order in which a backtracking matcher tries them.
use llm_gateway_with_cost_co.Prelude.{
  Bool, List, Option, false, if◌then◌else◌, is_some, leb, length, ltb, none, not, some, suc, true,
  zero, ℕ, ◌&&◌, ◌++◌, ◌+◌, ◌-◌, ◌==◌, ◌∷◌, [], ◌||◌, take,
}
use llm_gateway_with_cost_co.Text.{Text}

pub data Regex : Type 0 where
  epsilon : Regex
  one : (ℕ → Bool) → Regex
  boundary : (ℕ → Bool) → Regex
  not_after : (ℕ → Bool) → Regex
  not_before : (ℕ → Bool) → Regex
  after : (ℕ → Bool) → Regex
  ahead : Regex → Regex
  seq : Regex → Regex → Regex
  alt : Regex → Regex → Regex
  star : Regex → Regex

-- A place in a text: the code point before it and what follows.
pub record Place : Type 0 where
  before : Option ℕ
  pub rest : Text

abbrev pub at : Option ℕ → Text → Place
at b t = record { before = b; rest = t }

abbrev pub head : Text → Option ℕ
head [] = none
head (c ∷ t) = some c

abbrev pub holds : (ℕ → Bool) → Option ℕ → Bool
holds p none = false
holds p (some c) = p c

abbrev pub differ : Bool → Bool → Bool
differ true b = not b
differ false b = b

abbrev pub step_one : (ℕ → Bool) → Text → List Place
step_one p [] = []
step_one p (c ∷ t) = if p c then at (some c) t ∷ [] else []

abbrev pub bind : List Place → (Place → List Place) → List Place
bind [] f = []
bind (s ∷ ss) f = f s ++ bind ss f

-- The repetitions that went on from `n`: one that took nothing is not gone on from.
abbrev pub shorter_than : ℕ → List Place → List Place
shorter_than n [] = []
shorter_than n (s ∷ ss) =
    let more = shorter_than n ss in if ltb (length s.rest) n then s ∷ more else more

-- A greedy repetition. Each round takes at least one code point, so the text's length is enough.
abbrev pub repeat : (Place → List Place) → ℕ → Place → List Place
repeat f zero s = s ∷ []
repeat f (suc n) s = bind (shorter_than (length s.rest) (f s)) (repeat f n) ++ (s ∷ [])

abbrev pub some_place : List Place → Bool
some_place [] = false
some_place (s ∷ ss) = true

unfoldable pub ends : Regex → Place → List Place
ends epsilon s = s ∷ []
ends (one p) s = step_one p s.rest
ends (boundary word) s =
    if differ (holds word s.before) (holds word (head s.rest)) then s ∷ [] else []
ends (not_after p) s = if holds p s.before then [] else s ∷ []
ends (not_before p) s = if holds p (head s.rest) then [] else s ∷ []
ends (after p) s = if holds p s.before then s ∷ [] else []
ends (ahead r) s = if some_place (ends r s) then s ∷ [] else []
ends (seq r q) s = bind (ends r s) (ends q)
ends (alt r q) s = ends r s ++ ends q s
ends (star r) s = repeat (ends r) (length s.rest) s

-- How much the match that wins takes
abbrev pub first_end : ℕ → List Place → Option ℕ
first_end n [] = none
first_end n (s ∷ ss) = some (n - length s.rest)

unfoldable pub match_at : Regex → Option ℕ → Text → Option ℕ
match_at r b t = first_end (length t) (ends r (at b t))

-- `pattern.match(t)`: its `.end()`
unfoldable pub match_end : Regex → Text → Option ℕ
match_end r t = match_at r none t

-- `pattern.search(t)`, from a place on
unfoldable pub search_from : Regex → Option ℕ → Text → Bool
search_from r b [] = is_some (match_at r b [])
search_from r b (c ∷ t) = is_some (match_at r b (c ∷ t)) || search_from r (some c) t

-- What a match leaves to walk over behind its first code point; an empty one is no match here.
abbrev pub takes : Option ℕ → Bool
takes none = false
takes (some n) = ltb 0 n

abbrev pub left : Option ℕ → ℕ
left none = 0
left (some n) = n - 1

-- `pattern.sub(token, t)`, and the starts of `pattern.finditer(t)`, for patterns that match no
-- empty text. The number counts what is left of a match to walk over.
unfoldable pub sub_from : Regex → Text → Option ℕ → ℕ → Text → Text
sub_from r token b skip [] = []
sub_from r token b zero (c ∷ t) =
    let found = match_at r b (c ∷ t) in
    (if takes found then token else c ∷ []) ++ sub_from r token (some c) (left found) t
sub_from r token b (suc k) (c ∷ t) = sub_from r token (some c) k t

-- The same with a function of the text that is matched
unfoldable pub sub_by : Regex → (Text → Text) → Option ℕ → ℕ → Text → Text
sub_by r f b skip [] = []
sub_by r f b zero (c ∷ t) =
    let found = match_at r b (c ∷ t) in
    (if takes found then f (take (suc (left found)) (c ∷ t)) else c ∷ [])
    ++ sub_by r f (some c) (left found) t
sub_by r f b (suc k) (c ∷ t) = sub_by r f (some c) k t

unfoldable pub starts_from : Regex → ℕ → Option ℕ → ℕ → Text → List ℕ
starts_from r position b skip [] = []
starts_from r position b zero (c ∷ t) =
    let found = match_at r b (c ∷ t) in
    let rest = starts_from r (suc position) (some c) (left found) t in
    if takes found then position ∷ rest else rest
starts_from r position b (suc k) (c ∷ t) = starts_from r (suc position) (some c) k t

-- The notations of patterns
unfoldable pub times : ℕ → Regex → Regex
times zero r = epsilon
times (suc n) r = seq r (times n r)

unfoldable pub at_least : ℕ → Regex → Regex
at_least n r = seq (times n r) (star r)

-- {0,n} and {m,m + n}, greedy
unfoldable pub at_most : ℕ → Regex → Regex
at_most zero r = epsilon
at_most (suc n) r = alt (seq r (at_most n r)) epsilon

-- {0,n}?, which tries fewer first
unfoldable pub lazily_at_most : ℕ → Regex → Regex
lazily_at_most zero r = epsilon
lazily_at_most (suc n) r = alt epsilon (seq r (lazily_at_most n r))

unfoldable pub between : ℕ → ℕ → Regex → Regex
between m n r = seq (times m r) (at_most n r)

unfoldable pub optional : Regex → Regex
optional r = alt r epsilon

unfoldable pub literal : Text → Regex
literal [] = epsilon
literal (c ∷ t) = seq (one (λ d. d == c)) (literal t)

-- Under `re.IGNORECASE` four letters beyond ASCII match one of ASCII: U+0130, U+0131, U+017F and
-- U+212A.
abbrev pub fold : ℕ → ℕ
fold c =
    if leb b'A' c && leb c b'Z'
    then c + 32
    else if c == 304 || c == 305
    then b'i'
    else if c == 383
    then b's'
    else if c == 8490
    then b'k'
    else c

-- A literal in lower case, under `re.IGNORECASE`
unfoldable pub any_case : Text → Regex
any_case [] = epsilon
any_case (c ∷ t) = seq (one (λ d. fold d == c)) (any_case t)

-- A class of characters, under `re.IGNORECASE`
abbrev pub one_any_case : (ℕ → Bool) → Regex
one_any_case p = one (λ c. p (fold c))

unfoldable pub any_of : List Regex → Regex
any_of [] = one (λ c. false)
any_of (r ∷ []) = r
any_of (r ∷ q ∷ rs) = alt r (any_of (q ∷ rs))

unfoldable pub in_order : List Regex → Regex
in_order [] = epsilon
in_order (r ∷ rs) = seq r (in_order rs)

unfoldable pub is_one_of : Text → ℕ → Bool
is_one_of [] c = false
is_one_of (d ∷ t) c = c == d || is_one_of t c

abbrev pub is_upper : ℕ → Bool
is_upper c = leb b'A' c && leb c b'Z'

abbrev pub is_digit : ℕ → Bool
is_digit c = leb b'0' c && leb c b'9'

abbrev pub is_alnum : ℕ → Bool
is_alnum c = is_upper c || leb b'a' c && leb c b'z' || is_digit c

-- `\w`. Which code points beyond ASCII it takes is for the Unicode tables to say.
unfoldable pub is_word : (ℕ → Bool) → ℕ → Bool
is_word wide c = if ltb c 128 then is_alnum c || c == b'_' else wide c
