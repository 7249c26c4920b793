-- ===== src/Server.antt =====
-- internal/http/server.go: the routes with their guards, and the readiness check. The router is a
-- parameter that picks the route of a request.
pub mod Paths
pub mod Guarded
mod Tests
use vetka_backend_panel.Prelude.{
  ℕ, String, Bool, true, false, not, ◌&&◌, Option, none, some, List, [], ◌∷◌, ◌++◌, if◌then◌else◌,
}
use vetka_backend_panel.Middleware.{
  Config, HttpRequest, Reply, served, redirect, unauthorized, ui_auth, api_auth,
}

pub data Guard : Type 0 where
  unguarded : Guard
  page : Guard
  api : Guard

pub record Route : Type 0 where
  pub guard : Guard
  pub method : String
  pub pattern : String
  pub handler : String

abbrev pub route : Guard → String → String → String → Route
route guard method pattern handler = record {
  guard = guard;
  method = method;
  pattern = pattern;
  handler = handler;
}

abbrev pub open_routes : List Route
open_routes =
    route unguarded "GET" "/static/*" "static"
    ∷ route unguarded "GET" "/health" "health"
    ∷ route unguarded "GET" "/ready" "ready"
    ∷ route unguarded "GET" "/sub/{token}" "Subscription"
    ∷ route unguarded "GET" "/login" "LoginPage"
    ∷ route unguarded "POST" "/login" "Login"
    ∷ route unguarded "POST" "/ui/language" "SetLanguage"
    ∷ []

abbrev pub protected_routes : List Route
protected_routes =
    route page "GET" "/" "Dashboard"
    ∷ route page "GET" "/sessions" "Sessions"
    ∷ route page "GET" "/nodes" "Nodes"
    ∷ route page "GET" "/nodes/{id}" "NodeDetail"
    ∷ route page "GET" "/nodes/{id}/edit" "EditNodePage"
    ∷ route page "POST" "/nodes" "CreateNode"
    ∷ route page "POST" "/nodes/{id}" "UpdateNode"
    ∷ route page "POST" "/nodes/{id}/validate-status" "ValidateNodeStatus"
    ∷ route page "POST" "/nodes/{id}/delete" "DeleteNode"
    ∷ route page "POST" "/nodes/{id}/health" "NodeHealth"
    ∷ route page "POST" "/nodes/{id}/status" "NodeStatus"
    ∷ route page "POST" "/nodes/{id}/sync" "SyncNode"
    ∷ route page "POST" "/nodes/sync-all" "SyncAllNodes"
    ∷ route page "GET" "/users" "Users"
    ∷ route page "POST" "/users" "CreateUser"
    ∷ route page "GET" "/users/{id}" "UserDetail"
    ∷ route page "POST" "/users/{id}" "UpdateUser"
    ∷ route page "POST" "/users/{id}/delete" "DeleteUser"
    ∷ route page "POST" "/users/{id}/enable" "EnableUser"
    ∷ route page "POST" "/users/{id}/disable" "DisableUser"
    ∷ route page "POST" "/users/{id}/assign-node" "AssignNode"
    ∷ route page "POST" "/users/{id}/nodes/{accessID}/enable" "EnableUserNodeAccess"
    ∷ route page "POST" "/users/{id}/nodes/{accessID}/disable" "DisableUserNodeAccess"
    ∷ route page "POST" "/users/{id}/unassign-node" "UnassignNode"
    ∷ route page "POST" "/users/{id}/sync" "SyncUserNodes"
    ∷ route page "POST" "/users/reconcile-expired" "ReconcileExpiredUsers"
    ∷ []

abbrev pub api_routes : List Route
api_routes =
    route api "GET" "/api/nodes" "APIListNodes"
    ∷ route api "POST" "/api/nodes" "APICreateNode"
    ∷ route api "GET" "/api/nodes/{id}" "APIGetNode"
    ∷ route api "PATCH" "/api/nodes/{id}" "APIUpdateNode"
    ∷ route api "POST" "/api/nodes/{id}/health" "APINodeHealth"
    ∷ route api "POST" "/api/nodes/{id}/status" "APINodeStatus"
    ∷ route api "POST" "/api/nodes/{id}/sync" "APISyncNode"
    ∷ route api "POST" "/api/nodes/sync-all" "APISyncAllNodes"
    ∷ route api "POST" "/api/users" "APICreateUser"
    ∷ route api "GET" "/api/users/{id}" "APIGetUser"
    ∷ route api "PATCH" "/api/users/{id}" "APIUpdateUser"
    ∷ route api "POST" "/api/users/{id}/enable" "APIEnableUser"
    ∷ route api "POST" "/api/users/{id}/disable" "APIDisableUser"
    ∷ route api "POST" "/api/users/{id}/assign-node" "APIAssignNode"
    ∷ route api "POST" "/api/users/{id}/unassign-node" "APIUnassignNode"
    ∷ route api "POST" "/api/users/{id}/sync" "APISyncUser"
    ∷ route api "GET" "/api/users/{id}/subscription" "APIUserSubscription"
    ∷ route api "POST" "/api/users/reconcile-expired" "APIReconcileExpiredUsers"
    ∷ []

unfoldable pub routes : List Route
routes = open_routes ++ (protected_routes ++ api_routes)

-- A handler is reached by the name of its route, or the guard answers, or the router does.
pub data Answer : Type 0 where
  reached : Route → Answer
  refused : Reply → Answer
  no_route : Answer

unfoldable pub guarded_by : Guard → Config → HttpRequest → Reply
unfolding ui_auth api_auth
guarded_by unguarded cfg r = served
guarded_by page cfg r = ui_auth cfg r
guarded_by api cfg r = api_auth cfg r

abbrev pub behind : Route → Reply → Answer
behind t served = reached t
behind t (redirect to) = refused (redirect to)
behind t unauthorized = refused unauthorized

abbrev pub enter : Config → HttpRequest → Option Route → Answer
enter cfg r none = no_route
enter cfg r (some t) = behind t (guarded_by t.guard cfg r)

unfoldable pub serve : (List Route → HttpRequest → Option Route) → Config → HttpRequest → Answer
unfolding routes guarded_by
serve pick cfg r = enter cfg r (pick routes r)

-- What `sanitizeReadyError` asks of an error; `timeout` is there where the error has that method.
pub record PingError : Type 0 where
  pub is_canceled : Bool
  pub is_deadline_exceeded : Bool
  pub timeout : Option Bool

unfoldable pub sanitize_ready_error : Option PingError → String
sanitize_ready_error none = ""
sanitize_ready_error (some e) =
    if e.is_canceled
    then "context canceled"
    else if e.is_deadline_exceeded
    then "deadline exceeded"
    else elim e.timeout [
      | none ↦ "ping failed"
      | some late ↦ if late then "timeout" else "ping failed"
    ]

-- The status, the body, and the line that is logged.
unfoldable pub ready_handler : Option PingError → ℕ × String × Option String
unfolding sanitize_ready_error
ready_handler none = (200, "ready\n", none)
ready_handler (some e) = (503, "database unavailable\n", some (sanitize_ready_error (some e)))
