-- ===== src/Lib.antt =====
-- Vetka Backend Panel: the control panel that keeps VPN nodes and their users in step.
--
-- The panel stores nodes, users and the access of users to nodes in Postgres, and pushes to the agent of
-- each node the list of users that may use it. The parts and their files:
--
-- Prelude      shared names, Boolean tests, lists, int64 as the integers (Prelude/Int), strings
--              (Prelude/Text), actions with an error and a state (Prelude/Effects), and pre- and
--              postconditions of actions (Prelude/Triples).
-- World        the state that the parts share: the tables of internal/db/migrations.go (users, access,
--              nodes, sync events), the clock, the requests sent to agents, and what the outside decides.
--              `schedule` says of each statement whether it fails and how long it takes, `network` what
--              the next requests are answered, `row_ids` and `entropy` the identifiers and random bytes to
--              be drawn; an empty schedule is a database that does not fail, an empty network refuses
--              connections. World/Statements and World/Calm reason about statements.
-- Security     internal/security/security.go: Token, MaskSecret and ConstantTimeEqual, with
--              base64 in Security/Base64.
-- Middleware   internal/http/middleware/auth.go: UIAuth, APIAuth, Login, with the three fields of
--              internal/config's Config that they read.
-- Server       internal/http/server.go: the routes of NewServer with their guards, over a router that is a
--              parameter, and readyHandler. Paths and Guarded have what the guards need of the router.
-- Database     internal/db/db.go: Migrate, each statement of which may fail, and NormalizeProtocol. Steps
--              and Once have the theorems.
-- Users        internal/users: Models (models.go), Repository (the statements of repository.go that the
--              node manager and the reconciler use), Updates (its other statements),
--              Expiry (expiry_reconciler.go: needsExpirySync, dedupeStrings, mapKeys, reconcile, RunOnce),
--              whose repository and node synchronisation are parameters on a state of any type,
--              Dashboard and Lookups (ui_queries.go),
--              Service (service.go, with the transaction of CreateWithAssignments, which restores users and
--              access rows when it fails).
-- Nodes        internal/nodes: Models (models.go), Repository and Updates (repository.go, one statement
--              per method with the constraints and triggers of the schema), Client (agent_client.go),
--              Dashboard (ui_queries.go: DashboardStats), Status (validateNodeAgentConfig,
--              fetchAndReconcileStatus, recordStatus and the operations on them), Sync
--              (syncNodeAttempt, retryFromAgentResponse, SyncNode, SyncAllNodes), Manager
--              (CreateNode, UpdateNode, DeleteNode). Under Manager: Closed (what every statement keeps,
--              every operation keeps), Progress, Silence and Steady (such relations), Pushes and Order (the
--              versions that are pushed), Operations (sequences of operations), Outcomes, Answers,
--              Recorded, Settled and Retries (the exact outcome of an attempt), Taken and
--              Accepted (pushes that agents took), Delivery (what a push delivers).
-- Subscriptions  internal/subscriptions/subscriptions.go: Url (what it uses of net/url and net), Models,
--              Fields (tag, server, port, settings), Bodies (URIs and JSON documents), Texts (lines),
--              Service (formats, BuildSubscriptionWithMetadata, BuildByToken over an interface of the
--              repository). The parser of net/url is a parameter. Theorems: Tags, Slugs, Formats, Failures.
-- Telemetry    internal/telemetry/service.go: Models, Resolve (buildFallbackIndex, resolveSessionUser),
--              Views (skipNode, fetchNodeView, buildSessionView), Lists (filterSessions, sortSessions,
--              buildSummary, NodeIssueCode), Requests (TelemetrySessions of agent_client.go), Pages
--              (NodeSessions, UserSessions, AllSessions and fetchNodes over an interface of the agents;
--              the workers fill the slots in the order of the nodes). Theorems: Index, Scope, Sorting,
--              Issues, Assigned and Own (whose sessions the page of a user shows), Ready and Answered (it
--              is answered whatever the agents do).
-- Handlers     internal/http/handlers/handlers.go: the JSON API; NodesApi and UsersApi (one definition per
--              handler), AfterChange (syncNodesAfterChange, syncUserAssignments). Theorems: Withheld and
--              Withdrawal (who is sent to agents), Completion, Reconciled (the reconciler over the
--              repository and the manager).
-- Pages        internal/http/handlers/handlers.go: the actions of the pages; Forms (nodeInputFromForm,
--              userInputFromForm), Flash (flashText), NodePages and UserPages (one definition per
--              handler). Withdrawn has the theorems. The JSON library and the parser of times are
--              parameters.
-- I18n         internal/http/handlers/i18n.go: Russian and English (the catalogues), Translate.
-- Views        internal/http/handlers/view_helpers.go: Masks, Json (redactSecrets), Patterns (the regular
--              expressions) and Errors (SafeOperationalError, and safeUIErrorText of handlers.go), Tones,
--              Times (timeRemainingAt), UserList (with the page of users of handlers.go).
--
-- A Go function that returns an error is an action: from a state to a result or an error, and a state;
-- what was written before an error stays written. A nil pointer is `none`. JSON decoding is part of an
-- answer: a `Body` is text that is not JSON, or JSON with its decodings. A `jsonb` column holds JSON text
-- or null. Concurrent writers between two statements of one operation are not modelled; times are
-- numbers. Loops over lists are structural, so no fuel is used; the retry of a push is two levels deep, as
-- the code allows it once. In int64 arithmetic the one addition, in BumpVersion, is done by Postgres,
-- which refuses an overflow; so versions are integers.
--
-- Not modelled: rendering (internal/http/handlers), the library that
-- routes, the connection pool, the ticker of the reconciler, the interleavings of the
-- telemetry workers, logging.
pub mod Prelude
pub mod Users
pub mod Nodes
pub mod Subscriptions
pub mod Telemetry
pub mod World
pub mod Security
pub mod Server
pub mod Database
pub mod Middleware
pub mod Handlers
pub mod I18n
pub mod Views
pub mod Pages
