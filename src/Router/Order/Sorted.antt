-- ===== src/Router/Order/Sorted.antt =====
-- The sort of gateway/policy/router.py's rankings orders its input and loses none of it.
use mathlib.Core.List.Perm
use mathlib.Core.List.{Perm}
use llm_gateway_with_cost_co.Prelude.{
  All, Bool-cases, List, arith, false, inl, inr, true, ◌∷◌, ◌≡◌, [],
}
use llm_gateway_with_cost_co.Router.Order.{Key, insert_by, sort_by, key_leb}

key_leb_total : (k l : Key) → key_leb k l ≡ false → key_leb l k ≡ true
key_leb_total k l h = ground arith

key_leb_trans : (k l m : Key) → key_leb k l ≡ true → key_leb l m ≡ true → key_leb k m ≡ true
key_leb_trans k l m h g = ground arith

module _ {ℓ} {A : Type ℓ} (key : A → Key) where
  -- Each item comes before all that have a greater key.
  abbrev pub IsSorted : List A → Type 0
  IsSorted [] = Unit
  IsSorted (x ∷ xs) = All (λ y. key_leb (key x) (key y) ≡ true) xs × IsSorted xs

  All-insert_by {κ} :
      (P : A → Type κ) (x : A) (xs : List A) → P x → All P xs → All P (insert_by key x xs)
  unfolding insert_by
  All-insert_by P x [] p h = (p, tt)
  All-insert_by P x (y ∷ ys) p h = elim (Bool-cases (key_leb (key x) (key y))) [
    | inl before ↦ rw before (p, h)
    | inr after ↦ rw after (h.0, All-insert_by P x ys p h.1)
  ]

  pub All-sort_by {κ} : (P : A → Type κ) (xs : List A) → All P xs → All P (sort_by key xs)
  unfolding sort_by
  All-sort_by P [] h = tt
  All-sort_by P (x ∷ xs) h = All-insert_by P x (sort_by key xs) h.0 (All-sort_by P xs h.1)

  All-key_leb :
      (x y : A) (ys : List A)
      → key_leb (key x) (key y) ≡ true
      → All (λ z. key_leb (key y) (key z) ≡ true) ys
      → All (λ z. key_leb (key x) (key z) ≡ true) ys
  All-key_leb x y [] h a = tt
  All-key_leb x y (z ∷ ys) h a =
      (key_leb_trans (key x) (key y) (key z) h a.0, All-key_leb x y ys h a.1)

  insert_by-IsSorted : (x : A) (xs : List A) → IsSorted xs → IsSorted (insert_by key x xs)
  unfolding insert_by
  insert_by-IsSorted x [] s = (tt, tt)
  insert_by-IsSorted x (y ∷ ys) s = elim (Bool-cases (key_leb (key x) (key y))) [
    | inl before ↦ rw before ((before, All-key_leb x y ys before s.0), s)
    | inr after ↦ rw after (
      All-insert_by (λ z. key_leb (key y) (key z) ≡ true) x ys (key_leb_total (key x) (key y) after)
          s.0,
      insert_by-IsSorted x ys s.1,
    )
  ]

  -- Under any key, the sorted list has no item before one of a smaller key.
  pub sort_by-IsSorted : (xs : List A) → IsSorted (sort_by key xs)
  unfolding sort_by
  sort_by-IsSorted [] = tt
  sort_by-IsSorted (x ∷ xs) = insert_by-IsSorted x (sort_by key xs) (sort_by-IsSorted xs)

  insert_by-perm : (x : A) (xs : List A) → Perm (insert_by key x xs) (x ∷ xs)
  unfolding insert_by
  insert_by-perm x [] = Perm.refl (x ∷ [])
  insert_by-perm x (y ∷ ys) = elim (Bool-cases (key_leb (key x) (key y))) [
    | inl before ↦ rw before (Perm.refl (x ∷ y ∷ ys))
    | inr after ↦ rw after (Perm.trans (Perm.cons y (insert_by-perm x ys)) (Perm.swap x y ys))
  ]

  -- Sorting rearranges the candidates: none is lost, none is repeated.
  sort_by-perm : (xs : List A) → Perm (sort_by key xs) xs
  unfolding sort_by
  sort_by-perm [] = Perm.refl []
  sort_by-perm (x ∷ xs) =
      Perm.trans (insert_by-perm x (sort_by key xs)) (Perm.cons x (sort_by-perm xs))
