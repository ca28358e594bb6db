-- ===== src/Lib.antt =====
-- A verification library for the TradeStation API wrapper, a Python package for trading through a
-- broker's REST interface (src/tradestation_api_wrapper, tests aside).
--
-- The parts. A caller builds an order (`builders.py`, `models.py`) and a configuration
-- (`config.py`), and hands both to the client (`client.py`). The client asks the configuration and
-- the risk checks (`validation.py`) whether the order may go out, and then the REST client
-- (`rest.py`) to send it; that repeats what is safe to repeat, after delays (`rate_limit.py`),
-- refreshes the token once, and raises `AmbiguousOrderState` when a write may have taken effect.
-- The client returns a trade (`trade.py`) that says whether its outcome must be reconciled, which
-- `reconciliation.py` does by matching the broker's orders. Access tokens come from the OAuth manager
-- (`auth.py`), which refreshes them at the token endpoint and keeps them in a token store, in memory
-- or in a file under a lock file; the first token comes from a loopback server that the browser is
-- sent to. A stream (`stream.py`) reads chunks from the REST client, and connects again when the
-- server says GO_AWAY or the connection fails.
--
-- The files. Base and its children hold shared names, tests on numbers, texts, decimals, dates,
-- results, and the interface of floats. Json, Errors and Transport are the data that the parts
-- exchange. OrderStatus is order_status.py. Models is models.py: Enums, Options, Orders and Replace
-- the requests, Params the parameters of charts and options, Snapshots, Accounts, Quotes and
-- Confirmations what the broker returns, Built what a built request satisfies. Config is config.py,
-- Validation validation.py with Risk what is proved of it and Numbers the payloads with numbers,
-- Builders builders.py, Trade trade.py, Reconciliation reconciliation.py, Redaction redaction.py.
-- RateLimit is rate_limit.py and the reconnect delay of stream.py. Rest is rest.py: Rest the loop
-- of `request_json`, Run code that uses the network, Verbs the requests by method, Loop, Writes and
-- Reads what is proved of them. Client is client.py: Client the checks and paths, Pages the reading
-- of orders, Reads the other reads of accounts, Permitted what is proved of them, Market the reads
-- of market data, Streams the streams, Coerce what a replacement asks for, Payload the orders of a
-- response, Orders the writes, with Guards, Groups, Replacing and Outcome, what is proved of them.
-- Stream is stream.py: Stream the kinds of messages and the test for incomplete text, Parser the
-- parser, Incomplete, Nested, Blanks, Fuel and Chunks what is proved of them; Stream/Events is the loop
-- that connects again, Counted and Reconnects how often, Delivered which events it yields.
-- Rest/Streams is what the REST client adds to a stream, Requests how many requests that is.
-- Transport/Reader is the reader thread of a stream and its consumer, Items and Complete what is
-- proved of them. Redaction/Json is the redaction of a JSON value, Fragments which
-- keys are sensitive, Laws what redaction leaves. Auth is auth.py: Auth the
-- reading of the token endpoint's answers, Store the interface of a token store, its laws, and the
-- store in memory, Store/File the store in a file, Manager the OAuth manager over any store, Stored
-- what is proved of it, Loopback the callback server, Accepted which code it accepts, Lock the lock
-- file, Invariant, Moves and Exclusion what holds of its undisturbed runs, Runs how a lock is recovered
-- and lost. Tests applies each theorem to values.
--
-- State. What a request asks of the token provider, the transport and the sleeper is a trace;
-- their n-th answer is any function of n, fixed in the environment. Exceptions are values of
-- `Error` and `Failure`; a pydantic model is a record, and its construction a function into a
-- result. The token store of the manager is any state, which other tasks and processes may change
-- before each access. The lock file is a step relation: the contenders' calls of the operating system
-- are interleaved in any order, a process may end at any time, and the rules of a run say when a lock
-- may be moved away and when it gets old. A stream is a watch: the events yielded, the delays slept,
-- the connections opened.
--
-- Fuel. The loop of `request_json` runs on `max_attempts + 2` rounds of fuel: each round but the
-- last one repeats below `max_attempts` or refreshes the token for the first time. The loop over
-- pages is bounded by `max_order_pages` in the source. The parser of streams has as much fuel as
-- its buffer has characters, and one more: each round takes one off. The loop of `_stream_chunks` has
-- two rounds: the second only follows the first 401. The loop of a stream need not end, and its fuel
-- is the number of connections that are watched.
--
-- Not modelled. pydantic's parsing and `model_dump`, hashlib, urllib and httpx, regular
-- expressions, `asyncio.gather`, `random` and clocks are arguments, with no law assumed of them but
-- that the comparison of floats is irreflexive and asymmetric, of the JSON decoder that it takes
-- something off what it decodes and is not swayed by what follows an object, and of the codec of a
-- token file that it decodes what it encodes. Decimals have the 28 digits of the default context
-- and no limit of exponent. Messages that the source formats with values are kept by their fixed
-- part. The incremental UTF-8 decoder, the calls of urllib and httpx and the mapping of their
-- exceptions, the codec of plain text, PKCE's hash, the browser and the HTTP server are not
-- modelled. Under its lock a method of the store in a file is one step, and the release of the lock
-- does not fail. A process has one contender for a lock, its pid is not given out again, and
-- whether a process runs is part of the state. Sleeping does not fail. The power of two in a
-- delay is taken to be in the range of a float, which it is below attempt 1025. The pinning tool and the
-- tests are left aside.
pub mod Base
pub mod Json
pub mod Errors
pub mod OrderStatus
pub mod Models
pub mod Config
pub mod Validation
pub mod Trade
pub mod Reconciliation
pub mod Builders
pub mod RateLimit
pub mod Redaction
pub mod Transport
pub mod Rest
pub mod Client
pub mod Stream
pub mod Auth
pub mod Tests
