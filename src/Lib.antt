-- ===== src/Lib.antt =====
-- A verification library for zcode2api: a gateway that serves requests with a pool of accounts.
-- It chooses an account for each request, learns from every answer how the account does, and keeps
-- captcha tokens solved ahead. The library follows this path.
--
-- * Account, Account/*: the account record and the tests on it (internal/model/account.go,
--   riskcontrol.go, scheduling.go, initialization.go, start_plan.go, errorkind.go). `Account` holds the
--   data, Scheduling when an account may be called and why not, Quota and Expiry the reading of quota
--   snapshots; Barrier, Sync and Exhaustion prove.
-- * ModelName, ModelName/*: NormalizeModelName.
-- * Table, Table/Laws: the accounts in memory by provider, Update and UpdateForRequest
--   (internal/store/store.go, request_update.go).
-- * Marks, Marks/*: what an answer does to its account (internal/gateway/classify.go, riskscope.go,
--   engine.go): each callback is a function on accounts, each mark a function on the table.
-- * Admin, Admin/Laws: enabling, archiving, recovery and new credentials (internal/store/store.go).
-- * PoolStat, PoolStat/Counts: the counts in the error answer when no account can be chosen
--   (internal/store/store.go).
-- * Selection, Selection/*: selectAccount, layer by layer, the pin and the round robin cursor
--   (internal/store/store.go, pin.go, proxy_selection.go, proxy_uplink.go, line405.go). Richest, Layers,
--   Lines, Answer and Turns prove.
-- * TokenPool, TokenPool/*: the pool of captcha tokens (internal/captcha/token_pool.go,
--   cpu_governor.go). `TokenPool` is its state and inner operations, Ops the operations, Cpu the
--   governor; Settings, Bounds, Keeping, Run, Wakeup, Waiting,
--   Fresh, Marked and Again prove, Run and Again over sequences of operations.
-- * Ticket, Ticket/*: the tickets of asynchronous requests (internal/asyncpool/pool.go). `Ticket` is the
--   state and its operations, Stream the answer that a client waits for; Steps lets requests, producers
--   and streams act in any order, Phases is the plain machine that Refines refers the pool to; Upkeep,
--   Invariant, Sweep and Ends prove.
-- * Line, Line/*: the health of proxy lines. Reject counts 405 answers (internal/store/line405.go), Soft
--   requests that were not completed (proxy_soft_failure.go), Account405 tells the account's fault from
--   the line's (account405.go); Prune, Sorting, Oldest and Limits are about cutting their tables,
--   Sound, Isolation and Row prove of Reject, Probation, Quarantine and First of Soft.
-- * Recovery, Recovery/*: how a used-up model of an API key is tried again (internal/store/
--   quota_recovery.go). `Recovery` is the state, Leases the operations; Cloning, Loop, Single, Exclusive,
--   Pacing, Resting and Restored prove, Exclusive and Resting over sequences of operations, and Late of
--   late answers, those of Marks included.
-- * Replay, Replay/*: the guard against replays of refused content (internal/gateway/replayguard.go)
--   and the scope in which one request counts its refusals (internal/gateway/riskscope.go). Window has
--   what each operation does to an entry, Allowance a run of calls, Scope the counting.
-- * Cooling, Cooling/*: cooling ladders as texts of settings (internal/store/store.go).
-- * Common, Common/*: shared types, tests, lists, integers, texts and maps. Examples, Examples/*: the
--   theorems at concrete inputs.
--
-- How the code is read. A Go string is a list of code points and a map an association list; the order
-- of the list is the order of a `range`. A float of seconds, and a time.Time, is a number of ns; a
-- JSON number is an integer, and so is a text that stands for a number: where strconv.ParseFloat also
-- takes fractions, exponents, NaN and infinities, the model reads no number. A column of a quota that
-- is nil is an empty one. A pointer that may be nil is an Option. A callback under the store's
-- lock gives the new account. A critical section is one step, in which the clock is read once.
-- The counters of this program do not come near the bounds of a machine integer, and are natural
-- numbers. `collapse_dashes`, the loop of NormalizeModelName, runs on fuel, which is the length of the
-- name: every turn shortens it, so it ends by its own test. `itoa` runs on fuel, which is the number and
-- one: every digit divides it by ten. All other loops are structural.
--
-- Parameters. `View` gives the selection what other parts of the store have decided: retired routes,
-- isolated lines, upload rates, the pin, initialization tasks. `Decoders` stands for net/url,
-- encoding/base64, encoding/json and crypto/sha256 in the token pool. `Settings` holds what
-- internal/config gives proxy lines, `queue_probe` says whether the queue of model probes takes one.
-- `hash` stands for crypto/sha256 in the recovery, `saved` for the outcome of a transaction,
-- per account where a loop makes several. `migrate`
-- and `Attr` stand for the attribution snapshot of a ticket (internal/upstream).
--
-- Not modelled: the database, HTTP and streaming, the browser that solves captchas, proxy
-- administration, initialization tasks, the retry loops of a request, quota polling, claims, the
-- administration API, log lines and statistics. They are I/O or stand on the parts above.
pub mod Common
pub mod ModelName
pub mod Account
pub mod Table
pub mod Marks
pub mod Admin
pub mod Selection
pub mod Ticket
pub mod Line
pub mod Recovery
pub mod Replay
pub mod Cooling
pub mod TokenPool
pub mod PoolStat
pub mod Examples
