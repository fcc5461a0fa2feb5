-- ===== src/Lib.antt =====
-- LLM gateway with cost control: the ledger, the circuit breakers, the router, the policies on texts
-- and the request path.
--
-- A request asks the ledger for budget (`check_and_reserve_budget`), the router for backends
-- (`get_ranked_adapters`, which asks the breakers) and tries them in turn (`execute`); the ledger
-- then settles the reservation (`record_request`) or gives it back (`reclaim_stale_reservations`).
-- A streamed answer goes through the output guardrails (`StreamingOutputFilter`) and then through the
-- vault's restorer (`VaultRestorer`) before it is sent.
--
-- Prelude, Table, Text: shared tests, native integers, tables with a text key, texts as code points.
-- Ledger (gateway/ledger/store.py): the six tables as one record `Store`. Each method of the class
--   runs under the write lock and is a function from the store to its result and the new store:
--   Ledger/Budgets, Ledger/Requests, Ledger/Reclaim, Ledger/RateLimit; Ledger/Keys tells digests
--   from plaintext, and Ledger/Migration replaces the latter. Ledger/Accounts relates the counters
--   to the rows, over sequences of steps.
-- Breaker (gateway/policy/circuit_breaker.py): the breakers of a registry as one table.
-- Adapter (gateway/adapters/base.py): an adapter's settings, its token counts and its cost.
-- Gateway (gateway/main.py): `chat_completions` between a miss of the cache and the record of
--   the spend; Gateway/Estimate the price of its hold, Gateway/Misses and Gateway/Settlement what
--   it leaves in the ledger; and in Gateway/Streaming `stream_generator`: the chunks that
--   `execute_stream` yields are screened, restored and sent, and the request is settled however
--   the stream ends. Its chunks carry what the generator reads; Router/Stream sees of a chunk only
--   its text.
-- Gateway/Answers (gateway/main.py): what a backend's answer becomes before it is sent and cached, and
--   what a hit of the cache sends. Gateway/Endpoint: `chat_completions` without streaming, from the
--   messages that came in. Guardrails/Json: `repair_json`.
-- Health (gateway/main.py): one round of `health_check_loop`.
-- Auth (gateway/auth.py): `load_api_keys` and `verify_api_key`, over the ledger's rate limit.
-- Regex: what the patterns use of Python's `re`, as data, with the places where a match can end in
--   the order of a backtracking matcher. A repetition runs on the text's length, which is enough
--   since each round takes a code point.
-- Guardrails (gateway/policy/guardrails.py): the patterns of the output side, `emit_boundary`,
--   `sanitize_completion` and `StreamingOutputFilter`.
-- Screening (gateway/policy/guardrails.py): the injection patterns and `validate_messages`.
-- Normalize (gateway/policy/normalize.py): the canonical forms of a text that those are sought in.
-- Pii (gateway/policy/pii.py): `_luhn_valid`, in Pii/Shapes and Pii/Patterns the patterns, in
--   Pii/Vault the masking and the sanitizer, in Pii/Restorer `restore_text` and `VaultRestorer`.
--   A number is printed on its own size as fuel, which no number of digits exceeds.
-- Transformer (gateway/adapters/transformer.py): both translations of a request.
-- Router (gateway/policy/router.py): Router/Order has the sort keys, Router/Ranking
--   `get_ranked_adapters`, Router/Failure the reading of an exception, Router/Execute `execute`,
--   Router/Stream `execute_stream`, Router/Heuristics the two judgements of texts.
--   The exception of a backend is a value, and a clock that calls and sleeps advance stands for
--   `time.monotonic` and `time.time` alike.
-- Cache (gateway/policy/cache.py), KeyPool (gateway/policy/key_pool.py): one step for each method,
--   since each runs under a lock. Queue (gateway/ledger/async_queue.py): the worker over a store
--   interface, which Ledger fills.
--
-- Money is a signed count of an arbitrary small unit, where the source has floats, so sums are
-- exact; time is a count of milliseconds. All loops are structural: the three attempts count down
-- from `max_retries + 1`, and the failover runs through the ranked list.
--
-- Parameters: `digest` for SHA-256, `encode` for tiktoken, the backends' replies, the router's two
-- text heuristics, which Router/Heuristics fills but for what the regular expressions find, whether
-- `json.loads` reads a text, and what Unicode says of code points beyond ASCII and of the forms of a
-- text.
-- Not modelled: the HTTP layer, the startup and the administration in gateway/main.py, the entry that a
-- stream leaves in the cache, the providers' adapters, the dashboard and the telemetry, except the
-- counters that the router moves.
pub mod Prelude
pub mod Regex
pub mod Auth
pub mod Health
pub mod Transformer
pub mod Normalize
pub mod Screening
pub mod Guardrails
pub mod Pii
pub mod Table
pub mod Ledger
pub mod Breaker
pub mod Text
pub mod Adapter
pub mod Router
pub mod Cache
pub mod Gateway
pub mod KeyPool
pub mod Queue
