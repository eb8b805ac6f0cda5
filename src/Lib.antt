-- ===== src/Lib.antt =====
-- policyd: a Postfix policy service that limits how much each sender may send.
--
-- A request comes in over the policy delegation protocol and is answered by the policy engine. The engine
-- validates the addresses, looks at the blacklists, selects a policy rule, adapts the limits of its quota
-- to the sender and asks the rate limiter, which runs a script on a Redis server. A sender over the limit
-- is deferred, and locked and notified in the background: events go through a queue in Redis to workers,
-- which lock the account at a provider, with growing durations, and schedule its unlock. Every Redis command
-- goes through a circuit breaker.
--
-- Files and what they model:
--   Base, Base/*: texts, dictionaries, decimal numbers, and Python code that keeps state and may raise
--     (`Eff`: a function from a state to an outcome and the next state).
--   Floats, Json, Outside: the parameters. Floating point numbers, the text form of JSON, the clock, the Redis
--     server behind its driver and the resolver are not defined by the program.
--   Config: policyd_py/config/settings.py, the settings. Config/Parse: `parse_duration_to_seconds`,
--     `_parse_name_list`, `_parse_duration_list`, `_parse_headers`, `_parse_list_value`, one entry of the
--     policies. Config/Quotas: `parse_rate_limits`. Config/Sections: the sections that the engine does not
--     read. Config/Defaults: the defaults. Config/Reading and Config/Loading: `AppConfig.load` and `_parse_limits` over the sections.
--     Config/Durations, WellFormed, LoadedLimits and Loaded: proofs.
--   Models: policyd_py/core/models.py. Stats: policyd_py/stats/runtime.py.
--   Breaker: policyd_py/storage/circuit_breaker.py. `admit` and `settle` are what `call` does before and after
--     the guarded function, while it holds the lock; Breaker/Interleaving orders these steps freely, so calls
--     overlap there. Breaker/Invariant, History and Recovery: proofs.
--   Redis: policyd_py/storage/redis_client.py, `_execute` and the commands.
--   Limiter/RateLimiter and Limiter/Usage: policyd_py/ratelimit/limiter.py, the class `RateLimiter`, with the
--     server as a parameter. Limiter/FixedWindow, SlidingWindow and TokenBucket: its Lua scripts and the
--     branches of `get_usage` for them, over the hash of one key, with its expiry. Quota, Usage, Agreement and
--     Expiry below them: proofs.
--   Validator: policyd_py/validation/validator.py. Matcher: policyd_py/policy/matcher.py.
--   Actions: policyd_py/actions/manager.py, with its providers as parameters. Actions/Runs: its operations and
--     the rounds of its workers one after the other. The operation `close` says whether the call comes to an end,
--     and leaves in the queue the sentinels that no worker takes. Actions/Providers, Metrics, Closing: proofs.
--   Webhook: policyd_py/actions/webhook/provider.py, the provider by HTTP calls. Webhook/Retries, Waiting and
--     Signing: proofs. Script: policyd_py/script_runner.py and policyd_py/actions/script_provider.py.
--   Notifier: policyd_py/notification/notifier.py.
--   Handler: policyd_py/policy/handler.py, the state of the engine. Handler/Requests: `handle` and what it calls,
--     in the order of the code. Handler/Adaptive: the adaptive limits. Handler/Locks: locks, penalties and
--     notifications. Handler/Events: events and lock metadata as JSON. Handler/Background: the queue, its
--     workers and the unlock events. Handler/Listener: one round of the poll of scheduled unlocks. Handler/Lists:
--     the lists in Redis and the local domains. Handler/Manual: the operations of the management. Handler/Lifecycle:
--     the tasks of the engine. Handler/Quiet, Accounting, Answered, Adapted, Penalties, Unscheduled, LocalDomains,
--     Resetting, Resetting/Fingerprints, Lifecycle/Invariant: proofs.
--   Server: policyd_py/core/server.py, `_handle_client` over the lines of a connection. Server/Framing: proof.
--   Registry: policyd_py/multiserver/registry.py, with the file, the clock and new identifiers as parameters.
--     Registry/Indexed, Changes, Refinement and Reopened: proofs.
--   Management/ConfigManager: policyd_py/management/config_manager.py, over the contents of the files;
--     Saving and Saved below it: proofs. Management/Service: policyd_py/management/service.py. Management/Api: the
--     middlewares of policyd_py/management/api_server.py; Access below it: proof. Management/Routes: its
--     handlers, and the application with its middlewares.
--   Fleet: policyd_py/multiserver/client.py. Fleet/Manager: policyd_py/multiserver/manager.py. Fleet/Aggregated and
--     Credentials: proofs.
--   Ldap: policyd_py/ldap/client.py, with the directory as a parameter.
--   Startup: policyd_py/__main__.py, the providers and the action manager that the settings give; Startup/Usable: proof.
--   Tests: runs at concrete inputs.
--
-- Conventions and bounds:
--   A text is the list of its code points; `lower`, `strip`, `isdigit` and the character classes of regular
--   expressions are those of ASCII. Counts, durations and times are numbers from 0 on; `time.time()` is in
--   microseconds, and a clock may be set back where a theorem does not say that times are in order. The weights of
--   the sliding window and the tokens of a bucket are computed exactly, as fractions over the duration of the
--   window and as parts of a token, where the scripts and the client compute with doubles and a script
--   rounds the tokens that it stores to six decimals. Elsewhere floating point numbers are any
--   type with the operations that the code uses; the rounding to an integer may raise, and so may `int` of a
--   counter that another server sends. Loops are over lists; the only fuel is that of the decimal digits of a
--   number, one more than the number. A dictionary is the list of its entries.
--
-- Not modelled: a coroutine of the engine runs without others in between (but for the circuit breaker), and the
-- tasks that the code gathers run one after the other; the INI parser; connecting to Redis; the sockets and
-- timeouts of the servers; the periodic checks of several servers; the start and the reload of the process but
-- for its action manager; logging.
pub mod Base
pub mod Floats
pub mod Json
pub mod Config
pub mod Models
pub mod Ldap
pub mod Startup
pub mod Stats
pub mod Outside
pub mod Breaker
pub mod Redis
pub mod Limiter
pub mod Validator
pub mod Matcher
pub mod Actions
pub mod Handler
pub mod Registry
pub mod Server
pub mod Webhook
pub mod Script
pub mod Notifier
pub mod Management
pub mod Fleet
pub mod Tests
