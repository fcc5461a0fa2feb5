-- ===== src/Text.antt =====
-- Texts that the program walks over, as lists of code points, with what it uses of Python's `str`.
use Prim.Native.Char.{code}
use llm_gateway_with_cost_co.Prelude.{
  Bool, List, String, false, if◌then◌else◌, leb, true, ℕ, ◌&&◌, ◌++◌, ◌+◌, ◌==◌, ◌∷◌, ◌||◌, [],
}

abbrev pub Text : Type 0
Text = List ℕ

-- The code points of a literal. `String` has its own `[]` and `∷`.
abbrev pub codes : String → Text
codes String.[] = []
codes (String.◌∷◌ c s) = code c ∷ codes s

abbrev pub is_empty {ℓ} : {A : Type ℓ} → List A → Bool
is_empty [] = true
is_empty (x ∷ xs) = false

-- `str.isspace`, which `strip()` and `split()` go by
unfoldable pub is_space : ℕ → Bool
is_space c =
    leb 9 c && leb c 13
    || leb 28 c && leb c 32
    || c == 133
    || c == 160
    || c == 5760
    || leb 8192 c && leb c 8202
    || leb 8232 c && leb c 8233
    || c == 8239
    || c == 8287
    || c == 12288

pub lstrip : Text → Text
lstrip [] = []
lstrip (c ∷ cs) = let rest = lstrip cs in if is_space c then rest else c ∷ cs

pub rstrip : Text → Text
rstrip [] = []
rstrip (c ∷ cs) = let rest = rstrip cs in if is_empty rest && is_space c then [] else c ∷ rest

unfoldable pub strip : Text → Text
unfolding lstrip rstrip is_space
strip t = rstrip (lstrip t)

-- `sep.join(parts)`
unfoldable pub join : Text → List Text → Text
join sep [] = []
join sep (t ∷ []) = t
join sep (t ∷ u ∷ ts) = t ++ (sep ++ join sep (u ∷ ts))

-- `t.startswith(p)`
pub starts_with : Text → Text → Bool
starts_with [] t = true
starts_with (c ∷ p) [] = false
starts_with (c ∷ p) (d ∷ t) = c == d && starts_with p t

-- `p in t`
pub contains : Text → Text → Bool
contains p [] = starts_with p []
contains p (c ∷ t) = starts_with p (c ∷ t) || contains p t

-- `str.lower`, on the letters of ASCII
unfoldable pub lower : Text → Text
lower [] = []
lower (c ∷ t) = (if leb b'A' c && leb c b'Z' then c + 32 else c) ∷ lower t

-- `t == u`
abbrev pub same_text : Text → Text → Bool
same_text [] [] = true
same_text (x ∷ xs) (y ∷ ys) = x == y && same_text xs ys
same_text _ _ = false

-- `"".join(parts)`
abbrev pub flat : List Text → Text
flat [] = []
flat (t ∷ ts) = t ++ flat ts
