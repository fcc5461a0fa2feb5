-- ===== src/KeyPool/Turns.antt =====
-- Which key `get_next_key` (gateway/policy/key_pool.py) gives out.
use mathlib.Core.List.{Mem, mem-cons_self, mem-cons_of_mem}
use native.Mathlib.Nat.{suc-mod, mod-eq_of_lt, mod_self, mod-lt}
use llm_gateway_with_cost_co.Prelude.{
  arith, All, Bool-cases, List, Option-cases, ap, get_elem?, if◌then◌else◌, inl, inr, leb, length,
  none, refl, some, suc, zero, ℕ, ◌%◌, ◌+◌, ◌-◌, ◌<◌, ◌==◌, ◌∙◌, ◌∷◌, ◌≡◌, ◌≢◌, ◌≤◌, [], Option,
  false, get_or, ◌⊎◌, ltb, true, List-cases,
}
use llm_gateway_with_cost_co.Text.{Text, is_empty}
use llm_gateway_with_cost_co.KeyPool.{next_ready, cooldown_of, soonest, get_next_key, KeyPool}

-- The next turn's position among `n` keys.
mod_step : (m n : ℕ) → 0 < n → (m + 1) % n ≡ (if m % n + 1 == n then 0 else m % n + 1)
mod_step m n h =
    let up : m + 1 ≡ suc m = omega arith in
    elim (Bool-cases (m % n + 1 == n)) [
      | inl e ↦ rw (e) (
          let full : suc (m % n) ≡ n = ground arith in
          ap (λ (x : ℕ). x % n) up ∙ suc-mod m n ∙ ap (λ (x : ℕ). x % n) full ∙ mod_self n)
      | inr e ↦ rw (e) (
          let less : suc (m % n) < n = ground (arith, mod-lt m h) in
          ap (λ (x : ℕ). x % n) up ∙ suc-mod m n ∙ mod-eq_of_lt less ∙ omega arith)
    ]

-- How many turns after position `r` position `i` comes.
abbrev turns : ℕ → ℕ → ℕ → ℕ
turns n r i = if leb r i then i - r else i + n - r

turns_step :
    (n r r' i : ℕ)
    → r < n
    → i < n
    → i ≢ r
    → r' ≡ (if r + 1 == n then 0 else r + 1)
    → turns n r i ≡ turns n r' i + 1
turns_step n r r' i h g ne e = ground arith

module _ {ℓ} {A : Type ℓ} where
  get_elem?-Mem : (xs : List A) (i : ℕ) (x : A) → get_elem? xs i ≡ some x → Mem x xs
  get_elem?-Mem [] i x e = absurd (ground (arith, e))
  get_elem?-Mem (y ∷ xs) zero x e =
      let same : y ≡ x = ap (λ (o : Option A). get_or o y) e in rw (same) mem-cons_self
  get_elem?-Mem (y ∷ xs) (suc i) x e = mem-cons_of_mem y (get_elem?-Mem xs i x e)

  All-get_elem? {κ} :
      (P : A → Type κ) (xs : List A)
      → ((i : ℕ) (x : A) → i < length xs → get_elem? xs i ≡ some x → P x)
      → All P xs
  All-get_elem? P [] f = tt
  All-get_elem? P (x ∷ xs) f =
      (f 0 x (omega arith) refl, All-get_elem? P xs (λ i y h e. f (suc i) y (omega (arith, h)) e))

module _ (now : ℕ) (keys : List Text) (cooldowns : List (Text × ℕ)) where
  next_ready_found :
      (left index : ℕ) (key : Text)
      → (next_ready now keys cooldowns left index).0 ≡ some key
      → (i : ℕ) × (get_elem? keys i ≡ some key) × (cooldown_of key cooldowns ≤ now)
  unfolding next_ready
  next_ready_found zero index key h = absurd (ground (arith, h))
  next_ready_found (suc left) index key h =
      elim (Option-cases (get_elem? keys (index % length keys))) [
        | inl e ↦ next_ready_found left (index + 1) key (rw (e, next_ready) at h)
        | inr (k, e) ↦ elim (Bool-cases (leb (cooldown_of k cooldowns) now)) [
          | inl ready ↦
              let same : some k ≡ some key = rw (e, ready, next_ready) at h in
              (index % length keys, e ∙ same, ground (arith, same, ready))
          | inr busy ↦ next_ready_found left (index + 1) key (rw (e, busy, next_ready) at h)
        ]
      ]

  not_found_waiting :
      (left index i : ℕ) (key : Text)
      → 0 < length keys
      → (next_ready now keys cooldowns left index).0 ≡ none
      → i < length keys
      → turns (length keys) (index % length keys) i < left
      → get_elem? keys i ≡ some key
      → now < cooldown_of key cooldowns
  unfolding next_ready
  not_found_waiting zero index i key some_key h inside soon at = absurd (omega (arith, soon))
  not_found_waiting (suc left) index i key some_key h inside soon at =
      let n = length keys in
      let later : i ≢ index % n → turns n ((index + 1) % n) i < left = λ ne. omega (
        arith,
        soon,
        turns_step n (index % n) ((index + 1) % n) i (mod-lt index some_key) inside ne
            (mod_step index n some_key),
      ) in
      elim (Bool-cases (i == index % n)) [
        | inl here ↦
            let now_here : get_elem? keys (index % n) ≡ some key = ground (arith, here, at) in
            elim (Bool-cases (leb (cooldown_of key cooldowns) now)) [
              | inl ready ↦ absurd (
                  let bad : some key ≡ none = rw (now_here, ready, next_ready) at h in
                  ground (arith, bad))
              | inr busy ↦ ground (arith, busy)
            ]
        | inr apart ↦
            let soon' = later (ground (arith, apart)) in
            elim (Option-cases (get_elem? keys (index % n))) [
              | inl e ↦
                  not_found_waiting left (index + 1) i key some_key (rw (e, next_ready) at h) inside
                    soon' at
              | inr (k, e) ↦ elim (Bool-cases (leb (cooldown_of k cooldowns) now)) [
                | inl ready ↦ absurd (
                    let bad : some k ≡ none = rw (e, ready, next_ready) at h in ground (arith, bad))
                | inr busy ↦
                    not_found_waiting left (index + 1) i key some_key
                      (rw (e, busy, next_ready) at h) inside soon' at
              ]
            ]
      ]

  -- One turn looks at every key.
  one_turn_waiting :
      (index : ℕ)
      → 0 < length keys
      → (next_ready now keys cooldowns (length keys) index).0 ≡ none
      → All (λ k. now < cooldown_of k cooldowns) keys
  one_turn_waiting index some_key h = All-get_elem? _ keys (λ i k inside at.
      not_found_waiting (length keys) index i k some_key h inside
        (ground (arith, inside, mod-lt index some_key)) at)

soonest_least :
    (cooldowns : List (Text × ℕ)) (best : Text) (ks : List Text)
    → (cooldown_of (soonest cooldowns best ks) cooldowns ≤ cooldown_of best cooldowns)
      × All (λ k. cooldown_of (soonest cooldowns best ks) cooldowns ≤ cooldown_of k cooldowns) ks
unfolding soonest
soonest_least cooldowns best [] = (omega arith, tt)
soonest_least cooldowns best (k ∷ ks) =
    let better = if ltb (cooldown_of k cooldowns) (cooldown_of best cooldowns) then k else best in
    let ih = soonest_least cooldowns better ks in
    let no_later : (cooldown_of better cooldowns ≤ cooldown_of best cooldowns)
        × (cooldown_of better cooldowns ≤ cooldown_of k cooldowns) =
      elim (Bool-cases (ltb (cooldown_of k cooldowns) (cooldown_of best cooldowns))) [
        | inl less ↦ rw (less) (ground (arith, less), omega arith)
        | inr least ↦ rw (least) (omega arith, ground (arith, least))
      ] in
    (omega (arith, ih.0, no_later.0), (omega (arith, ih.0, no_later.1), ih.1))

soonest-Mem :
    (cooldowns : List (Text × ℕ)) (best : Text) (ks xs : List Text)
    → Mem best xs
    → All (λ k. Mem k xs) ks
    → Mem (soonest cooldowns best ks) xs
unfolding soonest
soonest-Mem cooldowns best [] xs m h = m
soonest-Mem cooldowns best (k ∷ ks) xs m h =
    elim (Bool-cases (ltb (cooldown_of k cooldowns) (cooldown_of best cooldowns))) [
      | inl less ↦ rw (less, soonest) (soonest-Mem cooldowns k ks xs h.0 h.1)
      | inr least ↦ rw (least, soonest) (soonest-Mem cooldowns best ks xs m h.1)
    ]

All-and {ℓ κ ι} :
    {A : Type ℓ} (P : A → Type κ) (Q : A → Type ι) (xs : List A)
    → All P xs
    → All Q xs
    → All (λ x. P x × Q x) xs
All-and P Q [] h g = tt
All-and P Q (x ∷ xs) h g = ((h.0, g.0), All-and P Q xs h.1 g.1)

-- The same for a pool whose first key is at hand.
next_key_ready :
    (now : ℕ) (p : KeyPool) (k : Text) (ks : List Text)
    → p.keys ≡ k ∷ ks
    → (key : Text) × ((get_next_key now p).0 ≡ some key)
      × Mem key p.keys
      × ((cooldown_of key p.cooldowns ≤ now)
          ⊎ All
              (λ k.
                (now < cooldown_of k p.cooldowns)
                × (cooldown_of key p.cooldowns ≤ cooldown_of k p.cooldowns))
              p.keys)
unfolding get_next_key
next_key_ready now p k ks e =
    let keys = k ∷ ks in
    elim (Option-cases (next_ready now keys p.cooldowns (length keys) p.index).0) [
      | inl f ↦
          let least = soonest_least p.cooldowns k ks in
          let all = one_turn_waiting now keys p.cooldowns p.index (omega arith) f in
          let members =
            All-get_elem? (λ x. Mem x keys) keys (λ i x _ at. get_elem?-Mem keys i x at) in
          (
            soonest p.cooldowns k ks,
            rw (e, get_next_key) (rw (e, f) refl),
            rw (e) (soonest-Mem p.cooldowns k ks keys members.0 members.1),
            inr (rw (e) (All-and _ _ keys all least)),
          )
      | inr (key, f) ↦
          let (i, at, ready) = next_ready_found now keys p.cooldowns (length keys) p.index key f in
          (
            key,
            rw (e, get_next_key) (rw (e, f) refl),
            rw (e) (get_elem?-Mem keys i key at),
            inl ready,
          )
    ]

-- With some key in the pool, `get_next_key` gives out one of the pool's keys: one that is not
-- cooling down, wherever it stands in turn, or, when all are, one whose cooldown ends first.
pub get_next_key_ready :
    (now : ℕ) (p : KeyPool)
    → is_empty p.keys ≡ false
    → (key : Text) × ((get_next_key now p).0 ≡ some key)
      × Mem key p.keys
      × ((cooldown_of key p.cooldowns ≤ now)
          ⊎ All
              (λ k.
                (now < cooldown_of k p.cooldowns)
                × (cooldown_of key p.cooldowns ≤ cooldown_of k p.cooldowns))
              p.keys)
get_next_key_ready now p h = elim (List-cases p.keys) [
  | inl e ↦ absurd (let bad : true ≡ false = rw (e) at h in ground (arith, bad))
  | inr (k, ks, e) ↦ next_key_ready now p k ks e
]
