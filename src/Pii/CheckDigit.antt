-- ===== src/Pii/CheckDigit.antt =====
-- What the check digit of `_luhn_valid` catches.
use llm_gateway_with_cost_co.Prelude.{
  arith, List, if◌then◌else◌, length, suc, true, ℕ, ◌%◌, ◌++◌, ◌+◌, ◌==◌, ◌∷◌, ◌≡◌, ◌≤◌, [],
  Bool-cases, inl, inr, length-append, false, some, ◌>>=◌, ◌≢◌, Option-cases, refl,
}
use llm_gateway_with_cost_co.Pii.{
  checks, doubled, luhn_total, luhn_valid, decimals, CharTables, digit_value, luhn_checks,
}
use llm_gateway_with_cost_co.Text.{Text}

doubled_le : (d : ℕ) → d ≤ 9 → doubled d ≤ 9
unfolding doubled
doubled_le d h = ground arith

doubled_injective : (c d : ℕ) → c ≤ 9 → d ≤ 9 → doubled c ≡ doubled d → c ≡ d
unfolding doubled
doubled_injective c d h k e = ground arith

luhn_total-append :
    (parity i : ℕ) (ds es : List ℕ)
    → luhn_total parity i (ds ++ es) ≡ luhn_total parity i ds + luhn_total parity (i + length ds) es
unfolding luhn_total
luhn_total-append parity i [] es = ground arith
luhn_total-append parity i (d ∷ ds) es = ground (arith, luhn_total-append parity (suc i) ds es)

-- The sum of a text in which one digit is taken out
around :
    (parity i d : ℕ) (ds es : List ℕ)
    → luhn_total parity i (ds ++ d ∷ es)
      ≡ luhn_total parity i ds
        + ((if (i + length ds) % 2 == parity then doubled d else d)
            + luhn_total parity (suc (i + length ds)) es)
unfolding luhn_total
around parity i d ds es = luhn_total-append parity i ds (d ∷ es)

other_weight :
    (a b x y : ℕ) → x ≤ 9 → y ≤ 9 → (a + (x + b)) % 10 ≡ 0 → (a + (y + b)) % 10 ≡ 0 → x ≡ y
other_weight a b x y h k e f = omega arith

-- The parity does not depend on the digits.
checks_total :
    (d : ℕ) (ds es : List ℕ)
    → checks (ds ++ d ∷ es) ≡ true
    → luhn_total ((length ds + suc (length es)) % 2) 0 (ds ++ d ∷ es) % 10 ≡ 0
checks_total d ds es h =
    let same = length-append ds (d ∷ es) in let total = rw same at h in ground (arith, total)

checks_one_digit :
    (c d : ℕ) (ds es : List ℕ)
    → c ≤ 9
    → d ≤ 9
    → checks (ds ++ c ∷ es) ≡ true
    → checks (ds ++ d ∷ es) ≡ true
    → c ≡ d
checks_one_digit c d ds es h k e f =
    let parity = (length ds + suc (length es)) % 2 in
    let before = luhn_total parity 0 ds in
    let after = luhn_total parity (suc (0 + length ds)) es in
    let first = rw (around parity 0 c ds es) at (checks_total c ds es e) in
    let second = rw (around parity 0 d ds es) at (checks_total d ds es f) in
    elim (Bool-cases ((0 + length ds) % 2 == parity)) [
      | inl q ↦ doubled_injective c d h k (
          other_weight before after (doubled c) (doubled d) (doubled_le c h) (doubled_le d k)
            (rw q at first) (rw q at second))
      | inr q ↦ other_weight before after c d h k (rw q at first) (rw q at second)
    ]

decimals-append :
    (tables : CharTables) (t u : Text)
    → decimals tables (t ++ u)
      ≡ (decimals tables t >>= λ ds. decimals tables u >>= λ es. some (ds ++ es))
unfolding decimals
decimals-append tables [] u = elim (Option-cases (decimals tables u)) [
  | inl q ↦ rw q refl
  | inr (es, q) ↦ rw q refl
]
decimals-append tables (c ∷ t) u = elim (Option-cases (digit_value tables c)) [
  | inl q ↦ rw q refl
  | inr (d, q) ↦ elim (Option-cases (decimals tables t)) [
    | inl p ↦ rw (q, decimals-append tables t u, p) refl
    | inr (ds, p) ↦ elim (Option-cases (decimals tables u)) [
      | inl s ↦ rw (q, decimals-append tables t u, p, s) refl
      | inr (es, s) ↦ rw (q, decimals-append tables t u, p, s) refl
    ]
  ]
]

digits_inside :
    (tables : CharTables) (t u : Text) (c x : ℕ) (ds es : List ℕ)
    → decimals tables t ≡ some ds
    → decimals tables u ≡ some es
    → digit_value tables c ≡ some x
    → decimals tables (t ++ c ∷ u) ≡ some (ds ++ x ∷ es)
unfolding decimals
digits_inside tables t u c x ds es q s p = rw (decimals-append tables t (c ∷ u), q, p, s) refl

-- A digit inside a text that passes
checks_inside :
    (tables : CharTables) (t u : Text) (c x : ℕ)
    → digit_value tables c ≡ some x
    → luhn_checks (decimals tables (t ++ c ∷ u)) ≡ true
    → (ds : List ℕ) × (es : List ℕ) × (decimals tables t ≡ some ds)
      × (decimals tables u ≡ some es)
      × (checks (ds ++ x ∷ es) ≡ true)
unfolding decimals
checks_inside tables t u c x p h = elim (Option-cases (decimals tables t)) [
  | inl q ↦ absurd (ground (arith, rw (decimals-append tables t (c ∷ u), q) at h))
  | inr (ds, q) ↦ elim (Option-cases (decimals tables u)) [
    | inl s ↦ absurd (ground (arith, rw (decimals-append tables t (c ∷ u), q, decimals, p, s) at h))
    | inr (es, s) ↦ (ds, es, q, s, rw (decimals-append tables t (c ∷ u), q, decimals, p, s) at h)
  ]
]

-- Of two texts that differ in one digit alone, at most one is a valid card number.
pub luhn_catches_one_digit :
    (tables : CharTables) (t u : Text) (c d x y : ℕ)
    → digit_value tables c ≡ some x
    → digit_value tables d ≡ some y
    → x ≤ 9
    → y ≤ 9
    → x ≢ y
    → luhn_valid tables (t ++ c ∷ u) ≡ true
    → luhn_valid tables (t ++ d ∷ u) ≡ false
unfolding luhn_valid
luhn_catches_one_digit tables t u c d x y p q h k ne valid =
    elim (Bool-cases (luhn_valid tables (t ++ d ∷ u))) [
      | inr e ↦ e
      | inl e ↦
          let (ds, es, a, b, first) = checks_inside tables t u c x p (ground (arith, valid)) in
          let digits = digits_inside tables t u d y ds es a b q in
          let both : luhn_checks (decimals tables (t ++ d ∷ u)) ≡ true = ground (arith, e) in
          absurd (ne (checks_one_digit x y ds es h k first (rw digits at both)))
    ]
