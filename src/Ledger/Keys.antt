-- ===== src/Ledger/Keys.antt =====
-- Client keys and their digests (gateway/ledger/store.py).
use llm_gateway_with_cost_co.Text.{codes}
use llm_gateway_with_cost_co.Prelude.{
  ℕ, zero, suc, String, Bool, true, false, ◌&&◌, ◌||◌, List, [], ◌∷◌, leb, ◌==◌,
}

-- `s[:n]`, in characters
pub prefix : ℕ → String → String
prefix zero s = String.[]
prefix (suc n) String.[] = String.[]
prefix (suc n) (String.◌∷◌ c s) = String.◌∷◌ c (prefix n s)

abbrev pub key_prefix_len : ℕ
key_prefix_len = 10

is_hex : ℕ → Bool
is_hex c = leb b'0' c && leb c b'9' || leb b'a' c && leb c b'f'

-- `^[0-9a-f]{64}$` under `re.match`: `$` also matches before one newline at the end.
is_digest : ℕ → List ℕ → Bool
is_digest zero [] = true
is_digest zero (c ∷ []) = c == 10
is_digest zero (c ∷ d ∷ cs) = false
is_digest (suc n) [] = false
is_digest (suc n) (c ∷ cs) = is_hex c && is_digest n cs

unfoldable pub is_hashed : String → Bool
unfolding is_digest is_hex
is_hashed value = is_digest 64 (codes value)
