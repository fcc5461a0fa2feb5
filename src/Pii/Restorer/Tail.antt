-- ===== src/Pii/Restorer/Tail.antt =====
-- What a streamed answer is restored in, and what is held back while it arrives.
use mathlib.Core.List.{append_assoc, append-nil}
use llm_gateway_with_cost_co.Prelude.{
  arith, List, Option-cases, drop, false, inl, inr, length, refl, some, ℕ, ◌++◌, ◌-◌, ◌∷◌, ◌≡◌, ◌≤◌,
  ◌⊎◌, [], Bool-cases, Option, ap, get_or, ltb, none, suc, sym, take, zero, ◌==◌, ◌||◌,
  take-append-drop, ◌∙◌, List-cases,
}
use llm_gateway_with_cost_co.Pii.{CharTables}
use llm_gateway_with_cost_co.Pii.Restorer.{
  last_bracket, token_boundary, restore_text, has_code, feed_texts, feed_text, restore_stream,
  flush_text, VaultRestorer, new_restorer,
}
use llm_gateway_with_cost_co.Text.{Text, is_empty, flat}

-- The pieces as the caller gets them
abbrev pub restored : CharTables → List (Text × Text) → List Text → Text
restored tables mapping [] = []
restored tables mapping (t ∷ ts) = restore_text tables mapping t ++ restored tables mapping ts

-- Text that may still turn into a placeholder: one opening bracket, and nothing that closes it
abbrev pub Unclosed : Text → Type 0
Unclosed t =
    (rest : Text) × (t ≡ b'[' ∷ rest)
    × (has_code b']' t ≡ false)
    × (has_code b'[' rest ≡ false)
    × (length t ≤ 64)

abbrev pub Held : Text → Type 0
Held t = (t ≡ []) ⊎ Unclosed t

pub drop-length : {A : Type 0} (xs : List A) → drop (length xs) xs ≡ []
drop-length [] = refl
drop-length (x ∷ xs) = drop-length xs

length-drop : {A : Type 0} (n : ℕ) (xs : List A) → length (drop n xs) ≡ length xs - n
length-drop zero xs = omega arith
length-drop (suc n) [] = omega arith
length-drop (suc n) (x ∷ xs) = omega (arith, length-drop n xs)

last_bracket-none : (t : Text) → last_bracket t ≡ none → has_code b'[' t ≡ false
unfolding has_code last_bracket
last_bracket-none [] h = refl
last_bracket-none (c ∷ t) h = elim (Option-cases (last_bracket t)) [
  | inl q ↦ ground (arith, last_bracket-none t q, rw (q, last_bracket) at h)
  | inr (n, q) ↦ absurd (ground (arith, rw (q, last_bracket) at h))
]

last_bracket-drop :
    (t : Text) (n : ℕ)
    → last_bracket t ≡ some n
    → (rest : Text) × (drop n t ≡ b'[' ∷ rest) × (has_code b'[' rest ≡ false)
unfolding last_bracket
last_bracket-drop [] n h = absurd (ground (arith, h))
last_bracket-drop (c ∷ t) n h = elim (Option-cases (last_bracket t)) [
  | inl q ↦
      let found = rw (q, last_bracket) at h in
      elim (Bool-cases (c == b'[')) [
        | inl e ↦
            let here : 0 ≡ n = ap (λ (o : Option ℕ). get_or o n) (rw e at found) in
            let same : c ≡ b'[' = ground (arith, e) in
            rw (sym here, same) (t, refl, last_bracket-none t q)
        | inr e ↦ absurd (ground (arith, rw e at found))
      ]
  | inr (m, q) ↦
      let found = rw (q, last_bracket) at h in
      let next : suc m ≡ n = ap (λ (o : Option ℕ). get_or o n) found in
      rw (sym next) (last_bracket-drop t m q)
]

token_boundary-Held : (t : Text) → Held (drop (token_boundary t) t)
unfolding token_boundary
token_boundary-Held t = elim (Option-cases (last_bracket t)) [
  | inl q ↦ rw (q, token_boundary) (inl (drop-length t))
  | inr (n, q) ↦ elim (Bool-cases (has_code b']' (drop n t) || ltb 64 (length t - n))) [
    | inl e ↦ rw (q, e, token_boundary) (inl (drop-length t))
    | inr e ↦
        let tail = last_bracket-drop t n q in
        rw (q, e, token_boundary)
          (inr (tail.0, tail.1, ground (arith, e), tail.2, ground (arith, e, length-drop n t)))
  ]
]

-- What feeding does, on a vault that has masked something
feed_texts-Held :
    (tables : CharTables) (mapping : List (Text × Text)) (ts : List Text) (pending : Text)
    → is_empty mapping ≡ false
    → Held pending
    → let run = feed_texts tables ts (record { mapping = mapping; pending = pending }) in
      (pieces : List Text) × (flat pieces ++ run.1.pending ≡ pending ++ flat ts)
      × (run.0 ≡ restored tables mapping pieces)
      × (run.1.mapping ≡ mapping)
      × Held run.1.pending
unfolding feed_texts feed_text
feed_texts-Held tables mapping [] pending h k = ([], sym (append-nil pending), refl, refl, k)
feed_texts-Held tables mapping (t ∷ ts) pending h k =
    let whole = pending ++ t in
    let limit = token_boundary whole in
    let (pieces, whole_eq, out, same, held) =
      feed_texts-Held tables mapping ts (drop limit whole) h (token_boundary-Held whole) in
    rw (h, feed_texts, feed_text)
      (
        take limit whole ∷ pieces,
        append_assoc (take limit whole) (flat pieces)
              (feed_texts tables ts
                (record { mapping = mapping; pending = drop limit whole })).1.pending
            ∙ ap (λ (u : Text). take limit whole ++ u) whole_eq
            ∙ sym (append_assoc (take limit whole) (drop limit whole) (flat ts))
            ∙ ap (λ (u : Text). u ++ flat ts) (take-append-drop limit whole)
            ∙ append_assoc pending t (flat ts),
        rw out refl,
        same,
        held,
      )

-- With nothing masked, the text goes through.
feed_texts_unmasked :
    (tables : CharTables) (ts : List Text)
    → feed_texts tables ts (record { mapping = []; pending = [] })
      ≡ (flat ts, record { mapping = []; pending = [] })
unfolding feed_texts feed_text
feed_texts_unmasked tables [] = refl
feed_texts_unmasked tables (t ∷ ts) = rw (feed_texts_unmasked tables ts) refl

restored_unmasked : (tables : CharTables) (ts : List Text) → restored tables [] ts ≡ flat ts
unfolding restore_text
restored_unmasked tables [] = refl
restored_unmasked tables ([] ∷ ts) = restored_unmasked tables ts
restored_unmasked tables ((c ∷ t) ∷ ts) = rw (restored_unmasked tables ts) refl

pub restored-snoc :
    (tables : CharTables) (mapping : List (Text × Text)) (ts : List Text) (t : Text)
    → restored tables mapping (ts ++ t ∷ [])
      ≡ restored tables mapping ts ++ restore_text tables mapping t
restored-snoc tables mapping [] t = append-nil (restore_text tables mapping t)
restored-snoc tables mapping (u ∷ ts) t = rw (restored-snoc tables mapping ts t) (
    sym (
      append_assoc (restore_text tables mapping u) (restored tables mapping ts)
        (restore_text tables mapping t)))

pub flat-snoc : (ts : List Text) (t : Text) → flat (ts ++ t ∷ []) ≡ flat ts ++ t
flat-snoc [] t = append-nil t
flat-snoc (u ∷ ts) t = rw (flat-snoc ts t) (sym (append_assoc u (flat ts) t))

-- The vault's answer
abbrev pub Whole : CharTables → List (Text × Text) → Text → Text × VaultRestorer → Type 0
Whole tables mapping text (out, r) =
    (pieces : List Text) × (flat pieces ≡ text)
    × (out ≡ restored tables mapping pieces)
    × (r.pending ≡ [])

flushed :
    (tables : CharTables) (mapping : List (Text × Text)) (text out : Text) (r : VaultRestorer)
    (pieces : List Text)
    → flat pieces ++ r.pending ≡ text
    → out ≡ restored tables mapping pieces
    → r.mapping ≡ mapping
    → Whole tables mapping text (out ++ (flush_text tables r).0, (flush_text tables r).1)
unfolding flush_text
flushed tables mapping text out r pieces h k e = elim (List-cases r.pending) [
  | inl q ↦
      rw (q, flush_text)
        (pieces, sym (append-nil (flat pieces)) ∙ (rw q at h), append-nil out ∙ k, refl)
  | inr (c, t, q) ↦
      rw (q, flush_text)
        (
          pieces ++ r.pending ∷ [],
          flat-snoc pieces r.pending ∙ h,
          rw (e, k, restored-snoc tables mapping pieces r.pending, q) refl,
          refl,
        )
]

-- An answer that is fed to the restorer piece by piece and then flushed reaches the caller whole:
-- every code point once and in order, in pieces whose placeholders are restored, with nothing left
-- over. At any moment before the flush, what is held is nothing, or one opening bracket and what
-- follows it, with no other bracket in it and no more than 64 code points.
pub restore_stream-Whole :
    (tables : CharTables) (mapping : List (Text × Text)) (ts : List Text)
    → Whole tables mapping (flat ts) (restore_stream tables ts (new_restorer mapping))
      × Held (feed_texts tables ts (new_restorer mapping)).1.pending
unfolding restore_stream
restore_stream-Whole tables [] ts = rw (feed_texts_unmasked tables ts) (
  flushed tables [] (flat ts) (flat ts) (new_restorer []) ts (append-nil (flat ts))
      (sym (restored_unmasked tables ts)) refl,
  inl refl,
)
restore_stream-Whole tables (x ∷ xs) ts =
    let run = feed_texts tables ts (new_restorer (x ∷ xs)) in
    let (pieces, whole, out, same, held) = feed_texts-Held tables (x ∷ xs) ts [] refl (inl refl) in
    (flushed tables (x ∷ xs) (flat ts) run.0 run.1 pieces whole out same, held)
