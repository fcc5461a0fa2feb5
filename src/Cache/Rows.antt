-- ===== src/Cache/Rows.antt =====
-- How the rows of the cache (gateway/policy/cache.py) move: to the end when used, off the front when
-- there are too many.
use llm_gateway_with_cost_co.Prelude.{
  arith, Option-cases, String, eq_iff, eq_refl, inl, inr, length, none, refl, some, sym, ℕ, ◌++◌,
  ◌∙◌, ◌∷◌, ◌≡◌, ◌≢◌, ◌≤◌, [],
}
use llm_gateway_with_cost_co.Table.{
  Table, remove, lookup, insert, lookup-remove_ne, lookup-remove_self,
}
use llm_gateway_with_cost_co.Cache.{evict, move_to_end}

module _ {ℓ} {V : Type ℓ} where
  pub insert-absent :
      (k : String) (v : V) (t : Table V) → lookup k t ≡ none → insert k v t ≡ t ++ (k, v) ∷ []
  unfolding insert lookup
  insert-absent k v [] h = refl
  insert-absent k v ((j, w) ∷ t) h = ground (arith, insert-absent k v t)

  pub insert-last :
      (k : String) (v w : V) (t : Table V)
      → lookup k t ≡ none
      → insert k v (t ++ (k, w) ∷ []) ≡ t ++ (k, v) ∷ []
  unfolding insert lookup
  insert-last k v w [] h = ground (arith, eq_refl k)
  insert-last k v w ((j, u) ∷ t) h = ground (arith, insert-last k v w t)

  pub remove-absent : (k : String) (t : Table V) → lookup k t ≡ none → remove k t ≡ t
  unfolding remove lookup
  remove-absent k [] h = refl
  remove-absent k ((j, u) ∷ t) h = ground (arith, remove-absent k t)

  -- Writing a key puts its row at the end and leaves the order of the others.
  pub insert-move_to_end :
      (k : String) (v : V) (t : Table V) → insert k v (move_to_end k t) ≡ remove k t ++ (k, v) ∷ []
  unfolding move_to_end
  insert-move_to_end k v t = elim (Option-cases (lookup k t)) [
    | inl e ↦ rw (e, move_to_end) (insert-absent k v t e ∙ rw (remove-absent k t e) refl)
    | inr (w, e) ↦ rw (e, move_to_end) (insert-last k v w (remove k t) (lookup-remove_self k t))
  ]

  pub remove-append : (k : String) (t s : Table V) → remove k (t ++ s) ≡ remove k t ++ remove k s
  unfolding remove
  remove-append k [] s = refl
  remove-append k ((j, u) ∷ t) s = ground (arith, remove-append k t s)

  pub length-evict : (n : ℕ) (t : Table V) → length (evict n t) ≤ n
  unfolding evict
  length-evict n [] = omega arith
  length-evict n (row ∷ t) = ground (arith, length-evict n t)

  pub lookup-append :
      (k : String) (t s : Table V) → lookup k t ≡ none → lookup k (t ++ s) ≡ lookup k s
  unfolding lookup
  lookup-append k [] s h = refl
  lookup-append k ((j, u) ∷ t) s h = ground (arith, lookup-append k t s)

  pub evict-fitting : (n : ℕ) (s : Table V) → length s ≤ n → evict n s ≡ s
  unfolding evict
  evict-fitting n [] h = refl
  evict-fitting n (row ∷ s) h = ground arith

  -- The newest `n` rows are not dropped.
  pub lookup-evict :
      (n : ℕ) (k : String) (t s : Table V)
      → lookup k t ≡ none
      → length s ≤ n
      → lookup k (evict n (t ++ s)) ≡ lookup k s
  unfolding lookup evict
  lookup-evict n k [] s h le = rw (evict-fitting n s le) refl
  lookup-evict n k ((j, u) ∷ t) s h le = ground (arith, lookup-evict n k t s, lookup-append k t s)

  pub move_to_end-found :
      (k : String) (v : V) (t : Table V)
      → lookup k t ≡ some v
      → move_to_end k t ≡ remove k t ++ (k, v) ∷ []
  unfolding move_to_end
  move_to_end-found k v t e = rw (e, move_to_end) refl

  pub append_two : (t : Table V) (a b : String × V) → (t ++ a ∷ []) ++ b ∷ [] ≡ t ++ a ∷ b ∷ []
  append_two [] a b = refl
  append_two (x ∷ t) a b = rw (append_two t a b) refl

  pub lookup-evict_two :
      (n : ℕ) (key other : String) (v w : V) (t : Table V)
      → lookup key t ≡ none
      → key ≢ other
      → 2 ≤ n
      → lookup key (evict n (remove other (t ++ (key, v) ∷ []) ++ (other, w) ∷ [])) ≡ some v
  unfolding lookup remove
  lookup-evict_two n key other v w t h ne room =
      let apart : remove other ((key, v) ∷ []) ≡ (key, v) ∷ [] =
        ground (arith, eq_iff key other, ne) in
      rw
        (
          remove-append other t ((key, v) ∷ []),
          apart,
          append_two (remove other t) (key, v) (other, w),
        )
        (lookup-evict n key (remove other t) _ (lookup-remove_ne other key t (λ q. ne (sym q)) ∙ h)
            (omega (arith, room))
          ∙ rw (eq_refl key) refl)
