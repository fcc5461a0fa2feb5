-- ===== src/Pii/Vault/Placeholders.antt =====
-- A placeholder tells its label and its number.
use mathlib.Core.List.{head-eq_of_cons-eq, tail-eq_of_cons-eq}
use llm_gateway_with_cost_co.Prelude.{
  arith, All, Bool-cases, inl, inr, ltb, refl, suc, zero, ℕ, ◌%◌, ◌*◌, ◌++◌, ◌+◌, ◌-◌, ◌/◌, ◌∷◌,
  ◌≡◌, ◌≢◌, ◌≤◌, [], ap, sym, true,
}
use llm_gateway_with_cost_co.Text.{Text, same_text}
use llm_gateway_with_cost_co.Pii.Vault.{digits_of, placeholder}

abbrev Lacks : ℕ → Text → Type 0
Lacks c = All (λ d. d ≢ c)

-- Reading decimal digits after the number read so far
abbrev read : ℕ → Text → ℕ
read n [] = n
read n (c ∷ t) = read (n * 10 + (c - b'0')) t

read-append : (n : ℕ) (t u : Text) → read n (t ++ u) ≡ read (read n t) u
read-append n [] u = refl
read-append n (c ∷ t) u = read-append (n * 10 + (c - b'0')) t u

tenth_le : (fuel n : ℕ) → n ≤ suc fuel → n / 10 ≤ fuel
tenth_le fuel n h = omega arith

read-digits_of : (fuel n : ℕ) → n ≤ fuel → read 0 (digits_of fuel n) ≡ n
unfolding digits_of
read-digits_of zero n h = omega arith
read-digits_of (suc fuel) n h = elim (Bool-cases (ltb n 10)) [
  | inl q ↦ rw q (omega arith)
  | inr q ↦
      rw
        (
          q,
          read-append 0 (digits_of fuel (n / 10)) ((b'0' + n % 10) ∷ []),
          read-digits_of fuel (n / 10) (tenth_le fuel n h),
        )
        (omega arith)
]

Lacks-append : (c : ℕ) (t u : Text) → Lacks c t → Lacks c u → Lacks c (t ++ u)
Lacks-append c [] u h k = k
Lacks-append c (d ∷ t) u h k = (h.0, Lacks-append c t u h.1 k)

digits_of-Lacks : (fuel n : ℕ) → Lacks b'_' (digits_of fuel n)
unfolding digits_of
digits_of-Lacks zero n = (λ e. absurd (omega (arith, e)), tt)
digits_of-Lacks (suc fuel) n = elim (Bool-cases (ltb n 10)) [
  | inl q ↦ rw q (λ e. absurd (ground (arith, e, q)), tt)
  | inr q ↦ rw q (
      Lacks-append b'_' (digits_of fuel (n / 10)) ((b'0' + n % 10) ∷ [])
        (digits_of-Lacks fuel (n / 10)) (λ e. absurd (omega (arith, e)), tt))
]

Lacks-none : (c : ℕ) (t u : Text) → Lacks c (t ++ c ∷ u) → ⊥
Lacks-none c [] u h = h.0 refl
Lacks-none c (d ∷ t) u h = Lacks-none c t u h.1

-- The last underscore parts a text in one way.
split_once :
    (l m t u : Text)
    → Lacks b'_' t
    → Lacks b'_' u
    → l ++ b'_' ∷ t ≡ m ++ b'_' ∷ u
    → (l ≡ m) × (t ≡ u)
split_once [] [] t u h k e = (refl, tail-eq_of_cons-eq e)
split_once [] (d ∷ m) t u h k e = absurd (Lacks-none b'_' m u (rw (tail-eq_of_cons-eq e) at h))
split_once (c ∷ l) [] t u h k e =
    absurd (Lacks-none b'_' l t (rw (sym (tail-eq_of_cons-eq e)) at k))
split_once (c ∷ l) (d ∷ m) t u h k e =
    let same = split_once l m t u h k (tail-eq_of_cons-eq e) in
    (rw (head-eq_of_cons-eq e, same.0) refl, same.1)

pub placeholder_injective :
    (l m : Text) (n k : ℕ) → placeholder l n ≡ placeholder m k → (l ≡ m) × (n ≡ k)
placeholder_injective l m n k e =
    let close = b']' ∷ [] in
    let lacks = λ (i : ℕ).
      Lacks-append b'_' (digits_of i i) close (digits_of-Lacks i i)
        (λ q. absurd (omega (arith, q)), tt) in
    let same =
      split_once l m (digits_of n n ++ close) (digits_of k k ++ close) (lacks n) (lacks k)
        (tail-eq_of_cons-eq e) in
    let total = ap (read 0) same.1 in
    (
      same.0,
      ground (
        arith,
        total,
        read-append 0 (digits_of n n) close,
        read-append 0 (digits_of k k) close,
        read-digits_of n n (ground arith),
        read-digits_of k k (ground arith),
      ),
    )

pub same_text_refl : (t : Text) → same_text t t ≡ true
same_text_refl [] = refl
same_text_refl (c ∷ t) = ground (arith, same_text_refl t)

pub same_text→eq : (t u : Text) → same_text t u ≡ true → t ≡ u
same_text→eq [] [] h = refl
same_text→eq [] (d ∷ u) h = absurd (ground (arith, h))
same_text→eq (c ∷ t) [] h = absurd (ground (arith, h))
same_text→eq (c ∷ t) (d ∷ u) h =
    let head_eq : c ≡ d = ground (arith, h) in
    let tail_eq = same_text→eq t u (ground (arith, h)) in rw (head_eq, tail_eq) refl
