-- ===== src/Router/Stream.antt =====
-- `execute_stream` (gateway/policy/router.py): failover until a backend sends a first chunk, and
-- then that backend's chunks, under one timeout from the start of the request. A chunk is its text.
pub mod Outcomes
mod Examples
use llm_gateway_with_cost_co.Prelude.{
  ℕ, Bool, List, Option, false, leb, min, none, some, true, ◌++◌, ◌+◌, ◌∷◌, [],
}
use llm_gateway_with_cost_co.Adapter.{Encoder, Adapter, Message}
use llm_gateway_with_cost_co.Router.{RouterState, RouteError, RouterConfig, Options, raised, routed}
use llm_gateway_with_cost_co.Text.{Text}
use llm_gateway_with_cost_co.Breaker.{record_failure, record_success}
use llm_gateway_with_cost_co.Router.Ranking.{get_ranked_adapters}

-- How a backend's generator goes on after its chunks: it ends, or raises (no `TimeoutError`).
pub data StreamEnd : Type 0 where
  exhausted broken : StreamEnd

-- What a backend does with a stream request: its first chunk after a time, the chunks after it, each
-- with the time it takes, and the end; or an exception after a time.
pub data Opening : Type 0 where
  opens : Text → ℕ → List (Text × ℕ) → StreamEnd → Opening
  refuses : ℕ → Opening

abbrev pub Streams : Type 0
Streams = Adapter → Opening

pub record StreamRun : Type 0 where
  pub clock : ℕ
  pub router : RouterState
  pub sent : List Text

-- How the generator of `execute_stream` ends.
pub data StreamOutcome : Type 0 where
  finished stream_timed_out interrupted no_stream : StreamOutcome
  not_ranked : RouteError → StreamOutcome

pub record Opened : Type 0 where
  pub target : Adapter
  pub chunks : List (Text × ℕ)
  pub end : StreamEnd

pub stream_failed : RouterConfig → Adapter → ℕ → StreamRun → StreamRun
stream_failed c a taken run = record run {
  clock = run.clock + taken;
  router = record run.router {
    breakers = record_failure c.breaker (run.clock + taken) a.id run.router.breakers;
  };
}

-- The loop over the ranked adapters; every exception counts against the breaker.
pub open_stream : RouterConfig → Streams → List Adapter → StreamRun → Option Opened × StreamRun
unfolding stream_failed
open_stream c streams [] run = (none, run)
open_stream c streams (a ∷ ranked) run = elim (streams a) [
  | opens chunk d chunks end ↦ elim (leb d c.timeout_sec) [
    | true ↦ (
      some (record { target = a; chunks = chunks; end = end }),
      record run { clock = run.clock + d; sent = run.sent ++ chunk ∷ [] },
    )
    | false ↦ open_stream c streams ranked (stream_failed c a c.timeout_sec run)
  ]
  | refuses d ↦ open_stream c streams ranked (stream_failed c a (min d c.timeout_sec) run)
]

-- The loop over the chunks, from `stream_start`.
pub read_chunks :
    RouterConfig → Adapter → ℕ → StreamEnd → List (Text × ℕ) → StreamRun → StreamOutcome × StreamRun
read_chunks c a started exhausted [] run = (
  finished,
  record run { router = record run.router { breakers = record_success a.id run.router.breakers } },
)
read_chunks c a started broken [] run = (interrupted, run)
read_chunks c a started end ((chunk, d) ∷ chunks) run =
    elim (leb (started + c.timeout_sec) (run.clock + d)) [
      | true ↦ (stream_timed_out, stream_failed c a d run)
      | false ↦
          read_chunks c a started end chunks
            (record run { clock = run.clock + d; sent = run.sent ++ chunk ∷ [] })
    ]

pub stream_ranked : RouterConfig → Streams → List Adapter → StreamRun → StreamOutcome × StreamRun
unfolding open_stream read_chunks
stream_ranked c streams ranked run =
    let (opened, run') = open_stream c streams ranked run in
    elim opened [
      | none ↦ (no_stream, run')
      | some s ↦ read_chunks c s.target run.clock s.end s.chunks run'
    ]

pub execute_stream :
    Encoder
    → (List Message → Bool)
    → RouterConfig
    → Streams
    → ℕ
    → List Message
    → Options
    → RouterState
    → StreamOutcome × StreamRun
unfolding stream_ranked
execute_stream encode is_complex c streams now messages o s =
    let (ranked, s') = get_ranked_adapters encode is_complex c now messages o s in
    let run : StreamRun = record { clock = now; router = s'; sent = [] } in
    elim ranked [
      | raised e ↦ (not_ranked e, run)
      | routed adapters ↦ stream_ranked c streams adapters run
    ]
