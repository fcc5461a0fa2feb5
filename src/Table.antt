-- ===== src/Table.antt =====
-- A table with a text primary key, or a Python dict with text keys: an association list in the
-- order of insertion.
use llm_gateway_with_cost_co.Prelude.{
  ◌≡◌, ◌≢◌, refl, Option, none, some, List, [], ◌∷◌, String, str_eq, eq_iff, eq_refl, arith,
  if◌then◌else◌,
}
use mathlib.Core.Option

abbrev pub Table {ℓ} : Type ℓ → Type ℓ
Table V = List (String × V)

module _ {ℓ} {V : Type ℓ} where
  -- `SELECT ... WHERE key = k`, `d.get(k)`
  unfoldable pub lookup : String → Table V → Option V
  lookup k [] = none
  lookup k ((j, v) ∷ t) = if str_eq j k then some v else lookup k t

  -- `INSERT ... ON CONFLICT DO UPDATE`, `d[k] = v`: a known key keeps its place.
  unfoldable pub insert : String → V → Table V → Table V
  insert k v [] = (k, v) ∷ []
  insert k v ((j, w) ∷ t) = if str_eq j k then (j, v) ∷ t else (j, w) ∷ insert k v t

  -- `UPDATE ... WHERE key = k`
  unfoldable pub adjust : String → (V → V) → Table V → Table V
  adjust k f [] = []
  adjust k f ((j, w) ∷ t) = (j, if str_eq j k then f w else w) ∷ adjust k f t

  -- `DELETE ... WHERE key = k`
  unfoldable pub remove : String → Table V → Table V
  remove k [] = []
  remove k ((j, w) ∷ t) = let rest = remove k t in if str_eq j k then rest else (j, w) ∷ rest

  pub lookup-insert :
      (k j : String) (v : V) (t : Table V)
      → lookup j (insert k v t) ≡ (if str_eq k j then some v else lookup j t)
  unfolding lookup insert
  lookup-insert k j v [] = refl
  lookup-insert k j v ((i, w) ∷ t) =
      ground (arith, eq_iff k j, eq_iff i k, eq_iff i j, lookup-insert k j v t)

  pub lookup-adjust :
      (k j : String) (f : V → V) (t : Table V)
      → lookup j (adjust k f t) ≡ (if str_eq k j then Option.map f (lookup j t) else lookup j t)
  unfolding lookup adjust
  lookup-adjust k j f [] = ground arith
  lookup-adjust k j f ((i, w) ∷ t) =
      ground (arith, eq_iff k j, eq_iff i k, eq_iff i j, lookup-adjust k j f t)

  pub lookup-remove :
      (k j : String) (t : Table V)
      → lookup j (remove k t) ≡ (if str_eq k j then none else lookup j t)
  unfolding lookup remove
  lookup-remove k j [] = ground arith
  lookup-remove k j ((i, w) ∷ t) =
      ground (arith, eq_iff k j, eq_iff i k, eq_iff i j, lookup-remove k j t)

module _ {ℓ} {V : Type ℓ} where
  pub lookup-adjust_ne :
      (k j : String) (f : V → V) (t : Table V) → k ≢ j → lookup j (adjust k f t) ≡ lookup j t
  lookup-adjust_ne k j f t ne = ground (arith, eq_iff k j, lookup-adjust k j f t)

  pub lookup-insert_ne :
      (k j : String) (v : V) (t : Table V) → k ≢ j → lookup j (insert k v t) ≡ lookup j t
  lookup-insert_ne k j v t ne = ground (arith, eq_iff k j, lookup-insert k j v t)

  pub lookup-remove_ne : (k j : String) (t : Table V) → k ≢ j → lookup j (remove k t) ≡ lookup j t
  lookup-remove_ne k j t ne = ground (arith, eq_iff k j, lookup-remove k j t)

  pub lookup-insert_self : (k : String) (v : V) (t : Table V) → lookup k (insert k v t) ≡ some v
  lookup-insert_self k v t = ground (arith, eq_refl k, lookup-insert k k v t)

  pub lookup-remove_self : (k : String) (t : Table V) → lookup k (remove k t) ≡ none
  lookup-remove_self k t = ground (arith, eq_refl k, lookup-remove k k t)

  pub lookup-adjust_self :
      (k : String) (f : V → V) (t : Table V) → lookup k (adjust k f t) ≡ Option.map f (lookup k t)
  lookup-adjust_self k f t = ground (arith, eq_refl k, lookup-adjust k k f t)

pub ruleset table_laws = (lookup-insert, lookup-adjust, lookup-remove, eq_refl)
