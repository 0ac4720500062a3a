-- ===== src/Lib.antt =====
-- The core of HovorunV2, a Telegram bot that runs media and text features for people and groups: who
-- may use a feature, how a request becomes an admitted job, how the job moves from its admission to its
-- end, and how the quotas it is charged to are reserved and settled.
--
-- How the parts interact. An incoming action is decided on by the feature policy, from the facts about
-- its actor and its target (Feature), some of which are permission decisions (Access). An allowed one is
-- given a validated envelope (Jobs) and a ticket, whose lifecycle is a table of transitions that each
-- compute a change from the stored ticket (Admission). The worker that claims a ticket resolves the
-- policies that apply (Usage), reserves them from windows, token buckets and concurrency sets (Budget),
-- and when it stops prepares a settlement, which the budget finishes and the ticket records. What a
-- worker does with a job from its claim to its settlement, and how it recovers what others have left, is
-- a sequence of calls to the two stores and to its other ports (Worker).
--
-- Beside that, the settings of a group are changed in windows, whose tokens are issued and resolved
-- against the actor, the chat and the message (Settings).
--
-- Which file models what, with paths from the root of the repository:
--   Domain             src/hovorunv2/domain/enums.py
--   Usage/Policies     src/hovorunv2/application/usage/policies.py
--   Usage/Budgets      src/hovorunv2/application/usage/budgets.py
--   Usage/Ledger       src/hovorunv2/application/usage/usage_ledger.py
--   Usage/Resolution   src/hovorunv2/application/usage/usage_resolution.py
--   Jobs/Envelope      src/hovorunv2/application/jobs/feature_jobs.py
--   Jobs/Settlement    src/hovorunv2/application/jobs/admission.py, SettlementIntent
--   Admission/Record, Admission/Transition
--                      src/hovorunv2/infrastructure/runtime/admission_state.py
--   Admission/Capacity the counters of the same file, and of
--                      src/hovorunv2/infrastructure/runtime/admission.py
--   Admission/Space    the keys of one namespace, with what each holds
--   Admission/Store    src/hovorunv2/infrastructure/runtime/admission.py, ValkeyAdmissionStore
--   Admission/Client   the methods of the same file that change state, of WorkerAdmissionClient too
--   Admission/Reads    the reads of the same file that write nothing
--   Budget/Record, Budget/Verify, Budget/Calculate, Budget/Settle
--                      src/hovorunv2/infrastructure/runtime/budget_state.py
--   Budget/Store       src/hovorunv2/infrastructure/runtime/budgets.py
--   Worker/Action      actions that keep what was written before an exception
--   Worker/World       the stores and ports of a worker
--   Worker/Lifecycle   src/hovorunv2/application/jobs/worker_lifecycle_service.py
--   Worker/Notices, Worker/Runner, Worker/Extraction, Worker/Execution, Worker/Recovery
--                      src/hovorunv2/application/jobs/feature_job_runner.py
--   Settings/Sessions  src/hovorunv2/application/settings/settings_session_service.py
--   Feature/Registry   src/hovorunv2/application/features/registry.py
--   Feature/Commands   src/hovorunv2/domain/enums.py, with what emergency.py and registry.py of
--                      src/hovorunv2/application/features look up there
--   Feature/Policy     src/hovorunv2/application/features/feature_policy.py
--   Access/Permissions src/hovorunv2/application/access/permissions.py
--   Access/Groups      src/hovorunv2/application/groups/group_policy.py
--   Access/Decision    src/hovorunv2/application/access/permission_policy.py, with the model and the
--                      rules of src/hovorunv2/infrastructure/authorization/policies
-- The other files of a directory hold proofs, and its Tests and Samples concrete inputs. Prelude holds
-- the notation and lemmas that all parts share.
--
-- How the model corresponds to the code. A function of the source is a function of the same name without
-- its leading underscore, a private method of a class is a function of its object, a dataclass or a
-- pydantic model is a record with a function `validate_…` for its validators, and an exception is an
-- `err` of the type Result. A transition of a ticket returns an AdmissionChange as the source's does; a
-- sequence of transitions is a list, run from a ticket by keeping each change that is to be written.
-- Enumerations are data types, and a text that only names one is that constructor. A key of the
-- key-value store is the tuple of the fields that its text joins, and a hash over data is that data. A
-- timestamp is a number of microseconds, where the source has a float of seconds; a token bucket is
-- counted in credits, so fine that refilling it is exact. Rounding of floats is not modelled.
--
-- The store of tickets is one state, a Space. An attempt of a transaction is a function of the space
-- that it reads. Where another client writes a watched key meanwhile, the server refuses what the
-- attempt writes, and the code tries again, 32 times at most; these refused attempts write nothing, and
-- are left out. A history is a list of admissions and calls, each made by an attempt that is not refused.
-- `admit_over` is an admission over a connection that may be lost before the server has made it or after
-- it. WorkerAdmissionClient has the transactions of ValkeyAdmissionStore, but synchronous and only in
-- the process that owns it, so that one definition stands for both. The store of reservations is a BudgetSpace, in the same way: its attempts are those
-- that no other client disturbs, and the page of reservations to expire, which the server returns, is
-- an argument. WorkerBudgetClient has the same transactions.
--
-- A worker is an action of a World: the two stores, and the trace of what it has asked its ports. An
-- action returns or raises, and leaves the world in both cases, since each call to a store commits on its
-- own. A port answers by a parameter of the model, which is a function of the trace, so that it may
-- answer anything at any time, and raise. Before each call to a store other clients make any calls of
-- their own, and the connection may lose the request or its answer. A task of a worker is one job or one
-- recovery. The commands of `try` and of `if … is None` are `catching` and `unless_none`.
--
-- The cache of windows keeps for each entry the time until which a read finds it.
--
-- Every function is total by structural recursion, so there is no fuel. Integers are unbounded, as in
-- the source, with the source's own bounds (2 ^ 53 - 1 for counters, 2 ^ 63 - 1 for accounts) as
-- tests.
--
-- Not modelled: the texts of JSON and the bytes of the store's protocol, the times after which keys of
-- the stores expire, the attempts that the server refuses, the bounds and patterns that pydantic tests
-- on the fields of a stored reservation, the order of the pages that the server returns and the
-- rotation of lanes, logging, SHA-256, the Casbin enforcer (a parameter of the permission decision),
-- the database, the Telegram interface, media extraction, browsers, translation, the asynchronous
-- service that admits and publishes jobs, and the wiring of services. The ports of a worker that stand
-- for these are parameters.
pub mod Prelude
pub mod Domain
pub mod Settings
pub mod Usage
pub mod Jobs
pub mod Admission
pub mod Feature
pub mod Access
pub mod Budget
pub mod Worker
