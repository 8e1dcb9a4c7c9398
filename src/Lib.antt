-- ===== src/Lib.antt =====
-- Andy is a personal finance bot: a text message comes in, a language model proposes writes, a
-- deterministic gate judges them, and a flush commits them to Postgres and queues a reply, which is
-- then delivered. This development models that path and proves what makes it safe.
--
-- The parts, and the files that model them:
--
--   Domain, Domain.Rows
--                     crates/shared/src/domain.rs, categories.rs: the write intents, and the rows and
--                     queries that the agent sees.
--   Shared            crates/shared/src: a module for each of memory.rs, percent.rs, security.rs,
--                     allowlist.rs, budget.rs, goals.rs, time.rs (Time), date_validation.rs
--                     (DateValidation), expense_category.rs (ExpenseCategory), dedup.rs, env.rs,
--                     errors.rs;
--                     Money prints the amounts of money.rs, Amounts reads them,
--                     Analytics compares periods and Analytics.Pace projects a month (analytics.rs);
--                     Categories reads a name (categories.rs).
--   Ai.Tools          crates/ai/src/finance_tools.rs: `execute_finance_tool`. The tools that write are
--                     Ai.Writes and its children, those that read Ai.Reads, what they take Ai.Args,
--                     how they check it Ai.Fields, the transaction that an edit aims at Ai.Targets.
--   Ai.Agent          crates/ai/src/agent.rs: `run_agent`, its rounds and its final turn.
--   Ai.Model, Ai.OpenRouter
--                     crates/ai/src/model.rs and openrouter.rs: the choice of the model, the retries of
--                     a request and what is told of an error. Ai.Client is `openrouter_from_env`.
--   Policy            crates/ai/src/policy.rs: `classify_writes` and `confirm_reply`.
--   Db.Tables         packages/db/migrations: the tables, and what makes a statement fail.
--   Db.Transactions   crates/db/src/writes.rs: transactions, goal balances, the audit trail.
--   Db.Goals, Db.Memories, Db.Recurring
--                     crates/db/src/writes.rs: the intents on goals, budgets, memories, reminders.
--   Db.Outbox         crates/db/src/writes.rs and ops.rs: the queue of replies.
--   Db.Confirmations  crates/db/src/confirmations.rs
--   Db.Flush          crates/db/src/writes.rs (`apply_write_intent`, `flush_writes`) and queries.rs
--                     (`claim_slot`, `resolve_user_id`).
--   Db.Reconcile, Db.Nudges, Db.Reminders, Db.Reapers
--                     crates/db/src/ops.rs: the statements of the daily checks.
--   Db.Queries        crates/db/src/queries.rs: the reads for the daily checks and the recent rows;
--                     Db.Queries.Search the searches of the tools, with `list_memories` of ops.rs.
--   Db.Read           crates/db/src/read.rs: `PgFinanceRead`, the port of the tools on those reads.
--   Db.Like           crates/db/src/sql.rs: `escape_like`.
--   Db.RateLimit      crates/db/src/ratelimit.rs
--   Api.Outbound      crates/api/src/outbound.rs: provider errors and deliveries.
--   Api.Service       crates/api/src/service.rs: `InboundMessageService::handle`. What the agent answers
--                     is a field of its `Service`, which Api.Assistant fills with the agent on the
--                     user's rows; Api.Reaction is `append_budget_reaction`.
--   Api.Hygiene, Api.Checks, Api.Cron
--                     crates/api/src/cron.rs: the clean-up, the messages, and the run of all checks.
--   Api.Credentials, Api.Inbound, Api.Webhook
--                     crates/api/src/routes.rs and inbound.rs: the token and the secret of a request,
--                     its message, and the two routes that act.
--   Api.Served        crates/api/src/routes.rs: the requests of a server one after the other.
--   Base              shared helpers: integers, lists, texts, Boolean tests.
--   Tests             the theorems at concrete inputs.
--
-- The daily checks read and mark the same tables that the turns write. A turn asks the agent for
-- writes, which its tools check and buffer, and passes them to the policy and the flush. A request
-- of the webhook, with that agent, is a function of the tables and of what the parameters answer.
--
-- Definitions bear the names of the functions they model. A table is the list of its rows, the
-- oldest first; a statement is a function of the database that gives an error where a constraint of
-- the schema fails, and a flush that errs or is superseded leaves the tables as they were. `now` is
-- the time of the database and `drawn` counts the calls of `gen_random_uuid()`. What Postgres
-- supplies and the repository does not define (random identifiers, `lower`, the two regular
-- expressions of the memory lookups, the order of `returning`) is the record `Db.Tables.Engine`. Other libraries are
-- parameters too: `Shared.Time.Calendar` is the calendar of chrono, with the laws
-- `Shared.Time.Laws.IsCalendar`; `Shared.Amounts.AmountText` the regular expressions and decimals
-- of amounts; `Ai.Args.Decoder` and the texts of `Ai.Context.Libraries` are serde_json;
-- `Ai.Agent.ChatModel` is the language model, and `Ai.Client.Provider` the HTTP under it;
-- `Shared.Floats.Floats` is the arithmetic of `f64`, of which no law is assumed.
-- `Api.Credentials.Codecs` is SHA-256, the lossy reading of bytes and the JSON of a request. A
-- handler of crates/api is an `Api.Program.Program`: it commits one statement after the other, and
-- an error keeps what was committed. `Db.Flush.Steps` is the step relation of the processes that
-- share the database: time, flushes, claims, confirmations, the marks of the queue and the clean-up
-- of handled messages, in any order.
--
-- Ledger invariants are in `Db.Ledger`, what flushes keep is in the children of `Db.Flush`, by the
-- induction of `Db.Flush.Loop`, and the behaviour of whole turns in the children of `Api.Service`.
-- What a program keeps, statement by statement, is `Api.Program.Holds`; `Api.Service.House.IsHouse`
-- is the invariant of a user's rows, `Api.Assistant.Book` proves it of requests, `Api.Cron.Book` of
-- the daily checks, and `Api.Served` of any sequence of both.
--
-- Machine integers: amounts are `i64` values, written as ℤ with saturation and wrap-around where
-- the source has them; `percent_rounded` is exact, since its products fit an `i128`. Strings are
-- lists of code points. Every recursion is structural. The digits of a number are found with fuel:
-- one more than the number, which has at most that many.
--
-- Not modelled: HTTP and SQL plumbing, with the connection and the migrations of crates/db/src, the
-- prompt and the schemas of the tools, the probes of crates/api/src/routes.rs, xtask, columns that
-- no modelled statement reads, such as the `updated_at` of a goal, and the instants at which one
-- handler reads the clock: they are the database's. Text is cut by code points. Statements of
-- several connections are serial.
pub mod Base
pub mod Domain
pub mod Ai
pub mod Policy
pub mod Db
pub mod Shared
pub mod Api
pub mod Tests
