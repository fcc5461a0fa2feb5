-- ===== src/Pii/Vault/Issued.antt =====
-- What the vault remembers: every placeholder it has given out stands for one value, and the
-- mapping that restores the answer knows it.
use llm_gateway_with_cost_co.Prelude.{
  arith, All, Bool-cases, List, if◌then◌else◌, inl, inr, refl, some, ℕ, ◌≡◌, ◌≢◌, ◌≤◌, suc, sym,
  ◌∙◌, ◌∷◌, ◌⊎◌, [], All-imp, Option, Option-cases, ap, get_or, none, ◌&&◌,
}
use llm_gateway_with_cost_co.Pii.Vault.Placeholders.{
  placeholder_injective, same_text_refl, same_text→eq,
}
use llm_gateway_with_cost_co.Text.{Text, same_text, is_empty}
use llm_gateway_with_cost_co.Pii.Vault.{
  value_of, issue_new, Issue, placeholder, set_value, count_of, mask_all, mask_one, seen_token,
  issue, Match, issue_all, accepted, matches_from, substitute,
}
use llm_gateway_with_cost_co.Pii.{CharTables}
use llm_gateway_with_cost_co.Adapter.{Message}
use llm_gateway_with_cost_co.Pii.Patterns.{PiiPattern, pii_patterns}

abbrev pub Entry : Type 0
Entry = (Text × Text) × Text

-- An entry's token carries a number that its label has reached, and is mapped to its value.
abbrev pub Restorable : Issue → Entry → Type 0
Restorable s ((label, value), token) =
    (n : ℕ) × (token ≡ placeholder label n)
    × (n ≤ count_of label s)
    × (value_of token s.mapping ≡ some value)

abbrev pub Sound : Issue → Type 0
Sound s = All (Restorable s) s.seen

abbrev pub Among : Entry → List Entry → Type 0
Among e [] = ⊥
Among e (x ∷ xs) = (e ≡ x) ⊎ Among e xs

-- From one state of the vault to a later one
abbrev pub Grows : Issue → Issue → Type 0
Grows s s' = (Sound s → Sound s') × ((e : Entry) → Among e s.seen → Among e s'.seen)

Grows-refl : (s : Issue) → Grows s s
Grows-refl s = (λ h. h, λ e m. m)

Grows-trans : (r s t : Issue) → Grows r s → Grows s t → Grows r t
Grows-trans r s t g h = (λ x. h.0 (g.0 x), λ e m. h.1 e (g.1 e m))

value_of-set_value :
    {V : Type 0} (k j : Text) (v : V) (t : List (Text × V))
    → value_of j (set_value k v t) ≡ (if same_text k j then some v else value_of j t)
unfolding value_of set_value
value_of-set_value k j v [] = refl
value_of-set_value k j v ((i, w) ∷ t) = elim (Bool-cases (same_text i k)) [
  | inl h ↦ elim (Bool-cases (same_text k j)) [
    | inl q ↦ rw (h, q, same_text→eq i k h, q) refl
    | inr q ↦ rw (h, q, same_text→eq i k h, q) refl
  ]
  | inr h ↦ elim (Bool-cases (same_text i j)) [
    | inl q ↦ elim (Bool-cases (same_text k j)) [
      | inl r ↦
          absurd (
            ground
              (arith, rw (same_text→eq i j q, sym (same_text→eq k j r), same_text_refl k) at h))
      | inr r ↦ rw (h, q, r) refl
    ]
    | inr q ↦ rw (h, q) (value_of-set_value k j v t)
  ]
]

set_value_other :
    {V : Type 0} (k j : Text) (v : V) (t : List (Text × V))
    → k ≢ j
    → value_of j (set_value k v t) ≡ value_of j t
set_value_other k j v t ne = elim (Bool-cases (same_text k j)) [
  | inl h ↦ absurd (ne (same_text→eq k j h))
  | inr h ↦ rw (value_of-set_value k j v t, h) refl
]

set_value_same :
    {V : Type 0} (k : Text) (v : V) (t : List (Text × V)) → value_of k (set_value k v t) ≡ some v
set_value_same k v t = rw (value_of-set_value k k v t, same_text_refl k) refl

-- An entry stays restorable when another is made.
Restorable-later :
    (label value : Text) (s : Issue) (e : Entry)
    → Restorable s e
    → Restorable (issue_new label value s).1 e
unfolding issue_new
Restorable-later label value s ((l, v), token) (n, p, le, m) =
    let fresh = placeholder label (suc (count_of label s)) in
    elim (Bool-cases (same_text label l)) [
      | inl h ↦
          let same = same_text→eq label l h in
          let counted : n ≤ count_of label s = rw (same) le in
          let other : fresh ≢ token = λ q. absurd (
            ground (
              arith,
              counted,
              (placeholder_injective label l (suc (count_of label s)) n (q ∙ p)).1,
            )) in
          (
            n,
            p,
            rw (value_of-set_value label l (suc (count_of label s)) s.counters, h)
                (ground (arith, counted)),
            set_value_other fresh token value s.mapping other ∙ m,
          )
      | inr h ↦
          let other : fresh ≢ token = λ q. absurd (
            ground (
              arith,
              h,
              rw
                  (
                    (placeholder_injective label l (suc (count_of label s)) n (q ∙ p)).0,
                    same_text_refl l,
                  )
                  at h,
            )) in
          (
            n,
            p,
            rw (value_of-set_value label l (suc (count_of label s)) s.counters, h) le,
            set_value_other fresh token value s.mapping other ∙ m,
          )
    ]

All-Among : (P : Entry → Type 0) (x : Entry) (xs : List Entry) → Among x xs → All P xs → P x
All-Among P x [] m h = absurd m
All-Among P x (y ∷ xs) (inl e) h = rw e h.0
All-Among P x (y ∷ xs) (inr m) h = All-Among P x xs m h.1

seen_token-Among :
    (label value token : Text) (seen : List Entry)
    → seen_token label value seen ≡ some token
    → Among ((label, value), token) seen
unfolding seen_token
seen_token-Among label value token [] h = absurd (ground (arith, h))
seen_token-Among label value token (((l, v), t) ∷ seen) h =
    elim (Bool-cases (same_text l label && same_text v value)) [
      | inl q ↦
          let same_label = same_text→eq l label (ground (arith, q)) in
          let same_value = same_text→eq v value (ground (arith, q)) in
          let same_token : t ≡ token = ap (λ (o : Option Text). get_or o t) (rw (q) at h) in
          inl (rw (same_label, same_value, same_token) refl)
      | inr q ↦ inr (seen_token-Among label value token seen (rw (q) at h))
    ]

issue_new-Grows : (label value : Text) (s : Issue) → Grows s (issue_new label value s).1
unfolding issue_new
issue_new-Grows label value s =
    let n = suc (count_of label s) in
    (
      λ h. (
        (
          n,
          refl,
          rw (value_of-set_value label label n s.counters, same_text_refl label) (ground arith),
          set_value_same (placeholder label n) value s.mapping,
        ),
        All-imp (Restorable s) (Restorable (issue_new label value s).1) s.seen
            (Restorable-later label value s) h,
      ),
      λ e m. inr m,
    )

-- A token that is given out is among the entries, with the value it stands for.
issue_lem :
    (label value : Text) (s : Issue)
    → Grows s (issue label value s).1
      × Among ((label, value), (issue label value s).0) (issue label value s).1.seen
unfolding issue issue_new
issue_lem label value s = elim (Option-cases (seen_token label value s.seen)) [
  | inl q ↦ rw (q, issue) (issue_new-Grows label value s, inl refl)
  | inr (token, q) ↦ rw (q, issue) (Grows-refl s, seen_token-Among label value token s.seen q)
]

abbrev pub Given : Text → Issue → List (Match × Text) → Type 0
Given label s = All (λ (m, token). Among ((label, m.value), token) s.seen)

issue_all_lem :
    (label : Text) (ms : List Match) (s : Issue)
    → Grows s (issue_all label ms s).1
      × Given label (issue_all label ms s).1 (issue_all label ms s).0
unfolding issue_all
issue_all_lem label [] s = (Grows-refl s, tt)
issue_all_lem label (m ∷ ms) s =
    let first = issue_lem label m.value s in
    let s' = (issue label m.value s).1 in
    let rest = issue_all_lem label ms s' in
    (
      Grows-trans s s' (issue_all label ms s').1 first.0 rest.0,
      (rest.0.1 ((label, m.value), (issue label m.value s).0) first.1, rest.1),
    )

mask_one-Grows :
    (tables : CharTables) (ps : List PiiPattern) (t : Text) (s : Issue)
    → Grows s (mask_one tables ps t s).1
unfolding mask_one
mask_one-Grows tables [] t s = Grows-refl s
mask_one-Grows tables (p ∷ ps) t s =
    let ms = accepted tables p.label (matches_from p.pattern 0 none 0 t) in
    let issued = issue_all p.label ms s in
    Grows-trans s issued.1 (mask_one tables ps (substitute issued.0 t) issued.1).1
      (issue_all_lem p.label ms s).0 (mask_one-Grows tables ps (substitute issued.0 t) issued.1)

mask_all-Grows :
    (tables : CharTables) (ms : List Message) (s : Issue) → Grows s (mask_all tables ms s).1
unfolding mask_all
mask_all-Grows tables [] s = Grows-refl s
mask_all-Grows tables (m ∷ ms) s =
    let masked = (mask_one tables (pii_patterns tables) m.content s).1 in
    elim (Bool-cases (is_empty m.content)) [
      | inl q ↦ rw (q, mask_all) (mask_all-Grows tables ms s)
      | inr q ↦
          rw (q, mask_all)
            (Grows-trans s masked (mask_all tables ms masked).1
              (mask_one-Grows tables (pii_patterns tables) m.content s)
              (mask_all-Grows tables ms masked))
    ]

-- Take any state of the vault whose entries are restorable, such as that before the first message.
-- Whatever is masked then in one pass of a label, and whatever is masked after it in other messages:
-- the mapping that comes out at the end gives for every placeholder of that pass the very value that
-- it replaced, and the entries are restorable again.
pub masked_values_map_back :
    (tables : CharTables) (label : Text) (ms : List Match) (later : List Message) (s : Issue)
    → Sound s
    → let issued = issue_all label ms s in
      let final = (mask_all tables later issued.1).1 in
      Sound final × All (λ (m, token). value_of token final.mapping ≡ some m.value) issued.0
masked_values_map_back tables label ms later s h =
    let issued = issue_all_lem label ms s in
    let s' = (issue_all label ms s).1 in
    let final = (mask_all tables later s').1 in
    let grown = mask_all-Grows tables later s' in
    let sound = grown.0 (issued.0.0 h) in
    (
      sound,
      All-imp (λ (m, token). Among ((label, m.value), token) s'.seen)
          (λ (m, token). value_of token final.mapping ≡ some m.value) (issue_all label ms s).0
          (λ (m, token) a.
            (All-Among (Restorable final) ((label, m.value), token) final.seen
              (grown.1 ((label, m.value), token) a) sound).3)
          issued.1,
    )
