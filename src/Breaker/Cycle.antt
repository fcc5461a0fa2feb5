-- ===== src/Breaker/Cycle.antt =====
-- The life of a breaker of gateway/policy/circuit_breaker.py: it opens after enough failures,
-- refuses while it cools, and then lets one probe through.
use llm_gateway_with_cost_co.Prelude.{
  List, String, arith, if◌then◌else◌, leb, length, str_eq, ℕ, ◌+◌, ◌<◌, ◌∷◌, ◌≡◌, ◌≢◌, [], eq_iff,
  eq_refl, false, some, true, Bool,
}
use llm_gateway_with_cost_co.Breaker.{
  get_row, BreakerConfig, Breakers, save, record_failure, gauge_value, record_success, failed,
  can_request, healthy, has_cooled,
}
use llm_gateway_with_cost_co.Ledger.{half_open, BreakerRow, open_circuit, closed}
use llm_gateway_with_cost_co.Table.{lookup-insert, lookup}

pub get_row-save :
    (id j : String) (row : BreakerRow) (s : Breakers)
    → get_row j (save id row s) ≡ (if str_eq id j then row else get_row j s)
unfolding get_row save
get_row-save id j row s = ground (arith, lookup-insert id j row s.rows)

-- A run of failures at the given times.
pub failures : BreakerConfig → String → List ℕ → Breakers → Breakers
failures c id [] s = s
failures c id (t ∷ ts) s = failures c id ts (record_failure c t id s)

-- Closed below the threshold, open from it on.
abbrev IsCounting : BreakerConfig → BreakerRow → Type 0
IsCounting c row =
    row.state ≡ (if leb c.failure_threshold row.consecutive_failures then open_circuit else closed)

failed-IsCounting :
    (c : BreakerConfig) (t : ℕ) (row : BreakerRow)
    → IsCounting c row
    → IsCounting c (failed c t row)
unfolding failed
failed-IsCounting c t row h = ground arith

get_row-failure :
    (c : BreakerConfig) (t : ℕ) (id : String) (s : Breakers)
    → get_row id (record_failure c t id s) ≡ failed c t (get_row id s)
unfolding record_failure
get_row-failure c t id s =
    ground (arith, get_row-save id id (failed c t (get_row id s)) s, eq_refl id)

pub get_row-success : (id : String) (s : Breakers) → get_row id (record_success id s) ≡ healthy
unfolding record_success
get_row-success id s = ground (arith, get_row-save id id healthy s, eq_refl id)

failures_row :
    (c : BreakerConfig) (id : String) (ts : List ℕ) (s : Breakers)
    → IsCounting c (get_row id s)
    → ((get_row id (failures c id ts s)).consecutive_failures
        ≡ (get_row id s).consecutive_failures + length ts)
      × IsCounting c (get_row id (failures c id ts s))
unfolding failures failed
failures_row c id [] s h = (omega arith, h)
failures_row c id (t ∷ ts) s h =
    let e = get_row-failure c t id s in
    let ih =
      failures_row c id ts (record_failure c t id s)
        (rw e (failed-IsCounting c t (get_row id s) h)) in
    (ground (arith, ih, e), ih.1)

can_request_tripped :
    (c : BreakerConfig) (now : ℕ) (id : String) (s : Breakers)
    → (get_row id s).state ≡ open_circuit
    → can_request c now id s ≡ (
        if has_cooled c now (get_row id s)
        then (true, save id (record (get_row id s) { state = half_open }) s)
        else (false, s))
unfolding can_request
can_request_tripped c now id s e = rw (e, can_request)

can_request_probing :
    (c : BreakerConfig) (now : ℕ) (id : String) (s : Breakers)
    → (get_row id s).state ≡ half_open
    → can_request c now id s ≡ (false, s)
unfolding can_request
can_request_probing c now id s e = rw (e, can_request)

pub can_request_closed :
    (c : BreakerConfig) (now : ℕ) (id : String) (s : Breakers)
    → (get_row id s).state ≡ closed
    → can_request c now id s ≡ (true, s)
unfolding can_request
can_request_closed c now id s e = rw (e, can_request)

-- What `can_request` answers, and the row that it leaves, as functions of the row it reads.
unfoldable pub allows : BreakerConfig → ℕ → BreakerRow → Bool
allows c now row = elim row.state [
  | closed ↦ true
  | open_circuit ↦ has_cooled c now row
  | half_open ↦ false
]

unfoldable pub asked : BreakerConfig → ℕ → BreakerRow → BreakerRow
asked c now row = elim row.state [
  | closed ↦ row
  | open_circuit ↦ if has_cooled c now row then record row { state = half_open } else row
  | half_open ↦ row
]

pub can_request-allows :
    (c : BreakerConfig) (now : ℕ) (id : String) (s : Breakers)
    → (can_request c now id s).0 ≡ allows c now (get_row id s)
unfolding can_request allows
can_request-allows c now id s = ground arith

pub get_row-can_request :
    (c : BreakerConfig) (now : ℕ) (id j : String) (s : Breakers)
    → get_row j (can_request c now id s).1
      ≡ (if str_eq id j then asked c now (get_row j s) else get_row j s)
unfolding can_request asked
get_row-can_request c now id j s =
    ground (arith, eq_iff id j, get_row-save id j (record (get_row id s) { state = half_open }) s)

-- Asking never turns a refusal into an admission.
pub allows-asked :
    (c : BreakerConfig) (now : ℕ) (row : BreakerRow)
    → allows c now (asked c now row) ≡ true
    → allows c now row ≡ true
unfolding allows asked
allows-asked c now row h = ground arith

module _ (c : BreakerConfig) (id : String) (s : Breakers) where
  -- For a positive threshold: after a success, a run of failures trips the breaker exactly when it
  -- reaches the threshold.
  pub trips_exactly :
      (ts : List ℕ)
      → 0 < c.failure_threshold
      → (get_row id (failures c id ts (record_success id s))).state
        ≡ (if leb c.failure_threshold (length ts) then open_circuit else closed)
  trips_exactly ts pos_threshold =
      let e = get_row-success id s in
      let all = failures_row c id ts (record_success id s) (rw e (ground arith)) in
      ground (arith, all, e)

  -- An open breaker refuses until it has cooled, and nothing changes; then it lets one request
  -- through and refuses every further one, at any time, until the probe's outcome is recorded: a
  -- success closes it, and a failure opens it anew from that failure on.
  pub probe_once :
      (now : ℕ)
      → (get_row id s).state ≡ open_circuit
      → let (allowed, s') = can_request c now id s in
        (allowed ≡ has_cooled c now (get_row id s))
        × (allowed ≡ false → s' ≡ s)
        × (allowed ≡ true → (later : ℕ) → can_request c later id s' ≡ (false, s'))
        × ((get_row id (record_success id s')).state ≡ closed)
        × ((later t : ℕ)
            → allowed ≡ true
            → (can_request c later id (record_failure c t id s')).0
              ≡ leb (t + c.cooldown_sec) later)
  unfolding failed
  probe_once now tripped =
      let half = record (get_row id s) { state = half_open } in
      let s' = save id half s in
      let first = can_request_tripped c now id s tripped in
      let row' = get_row-save id id half s in
      (
        ground (arith, first),
        ground (arith, first),
        (λ allowed later.
            ground (arith, first, row', eq_refl id, can_request_probing c later id s')),
        ground (arith, get_row-success id (can_request c now id s).1),
        (λ later t allowed. ground (
          arith,
          first,
          row',
          eq_refl id,
          get_row-failure c t id s',
          can_request_tripped c later id (record_failure c t id s'),
        )),
      )

  -- The row of another backend never changes.
  pub breaker_others :
      (j : String) (now : ℕ)
      → id ≢ j
      → (get_row j (record_success id s) ≡ get_row j s)
        × (get_row j (record_failure c now id s) ≡ get_row j s)
        × (get_row j (can_request c now id s).1 ≡ get_row j s)
  unfolding can_request record_failure record_success
  breaker_others j now ne = grind (arith, get_row-save, eq_iff id j)

-- The gauge shows every stored state.
abbrev pub IsShown : Breakers → Type 0
IsShown s =
    (j : String) (row : BreakerRow)
    → lookup j s.rows ≡ some row
    → lookup j s.gauge ≡ some (gauge_value row.state)

save-IsShown : (id : String) (row : BreakerRow) (s : Breakers) → IsShown s → IsShown (save id row s)
unfolding save
save-IsShown id row s h j r e = ground (
  arith,
  lookup-insert id j row s.rows,
  lookup-insert id j (gauge_value row.state) s.gauge,
  h j r,
)
