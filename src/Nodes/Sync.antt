-- ===== src/Nodes/Sync.antt =====
-- internal/nodes/manager.go: pushing the user list of a node to its agent, with one retry after a stale
-- version.
use Prim.Native.String.{◌++◌}
use mathlib.Core.List
use vetka_backend_panel.Prelude.{
  String, Bool, true, false, not, Option, none, some, List, [], ◌∷◌, map, ◌==◌, if◌then◌else◌,
}
use vetka_backend_panel.Prelude.Int.{ℤ, pos, leb_ℤ}
use vetka_backend_panel.Prelude.Text.{join}
use vetka_backend_panel.Prelude.Effects.{
  Result, ok, err, Action, pure, raise, attempt, ignore, ◌>>=◌, ◌>>◌,
}
use vetka_backend_panel.Users.Models.{AccessWithUser}
use vetka_backend_panel.Users.Repository.{active_access_for_node}
use vetka_backend_panel.Nodes.Models.{
  Node, AgentUser, SyncPayload, AgentResponse, Body, decode_response, SyncEvent,
}
use vetka_backend_panel.Nodes.Repository.{get, list}
use vetka_backend_panel.Nodes.Updates.{
  sync_remote_state, bump_version, mark_sync_success, mark_sync_failure, insert_sync_event,
}
use vetka_backend_panel.Nodes.Client.{Call, sync}
use vetka_backend_panel.Nodes.Status.{
  agent_response_error, str_ptr, remote_applied_version_from_response, fetch_and_reconcile_status,
}
use vetka_backend_panel.World.{World}

unfoldable pub agent_user : Node → AccessWithUser → AgentUser
agent_user node a = record {
  id = a.access.user_id;
  username = a.access.protocol_username;
  password = a.access.protocol_password;
  enabled = a.access.enabled;
  expires_at = a.user_expires_at;
  quota_mb = a.user_quota_mb;
  protocols = node.protocol_type ∷ [];
  meta = ("backend_user_id", a.access.user_id) ∷ ("backend_username", a.username) ∷ [];
}

unfoldable pub sync_payload : Node → List AccessWithUser → ℤ → SyncPayload
unfolding agent_user
sync_payload node assigned version = record {
  node_id = node.node_id;
  config_version = version;
  protocol_type = node.protocol_type;
  users = map (agent_user node) assigned;
}

-- One attempt: the node as it was read, the version sent, the payload, and the agent's answer.
pub record Attempt : Type 0 where
  pub node : Node
  pub assigned : List AccessWithUser
  pub version : ℤ
  pub answer : Call

abbrev pub payload_of : Attempt → SyncPayload
payload_of a = sync_payload a.node a.assigned a.version

unfoldable pub event_of : Attempt → String → Option String → SyncEvent
unfolding sync_payload
event_of a status error = record {
  node_id = a.node.id;
  config_version = a.version;
  status = status;
  http_status = some a.answer.result.status_code;
  request_json = payload_of a;
  response_json = a.answer.result.body;
  error = error;
  created_at = 0;
}

-- An event, then the node's row; only the event's failure is reported.
unfoldable pub log_failure : Attempt → String → String → Option String → Action World (Unit {0})
unfolding event_of insert_sync_event mark_sync_failure
log_failure a status message error = do
  insert_sync_event (event_of a status error)
  ignore (mark_sync_failure a.node.id status message)

-- What an attempt may call on a stale version: nothing, or another attempt.
abbrev pub Retry : Type 0
Retry = Option (Node → List AccessWithUser → ℤ → Action World AgentResponse)

unfoldable pub retry_from_agent_response :
    (Node → List AccessWithUser → ℤ → Action World AgentResponse)
    → Attempt
    → AgentResponse
    → Action World AgentResponse
unfolding log_failure sync_remote_state get bump_version
retry_from_agent_response again a resp = do
  log_failure a "stale_version" (agent_response_error resp) (str_ptr (agent_response_error resp))
  sync_remote_state a.node.id resp.current_version (remote_applied_version_from_response resp) none
  retry_node ← get a.node.id
  retry_version ← bump_version a.node.id
  again retry_node a.assigned retry_version

unfoldable pub http_failed : Attempt → String → Action World AgentResponse
unfolding log_failure
http_failed a message = do log_failure a "http_error" message (str_ptr message); raise message

-- `retryOnStaleVersion`: the body of a refused call may still say that the version is stale.
unfoldable pub on_call_error :
    Retry → Attempt → String → Result AgentResponse → Action World AgentResponse
unfolding http_failed retry_from_agent_response
on_call_error none a message decoded = http_failed a message
on_call_error (some again) a message (err e) = http_failed a message
on_call_error (some again) a message (ok resp) =
    if resp.status == "stale_version"
    then retry_from_agent_response again a resp
    else http_failed a message

abbrev pub refusal_status : AgentResponse → String
refusal_status resp = if resp.status == "" then "apply_failed" else resp.status

unfoldable pub apply_failed : Attempt → AgentResponse → Action World AgentResponse
unfolding log_failure
apply_failed a resp = do
  log_failure a (refusal_status resp) (agent_response_error resp)
      (str_ptr (agent_response_error resp))
  raise ("node agent sync failed: " ++ agent_response_error resp)

unfoldable pub on_refusal : Retry → Attempt → AgentResponse → Action World AgentResponse
unfolding apply_failed retry_from_agent_response
on_refusal none a resp = apply_failed a resp
on_refusal (some again) a resp =
    if resp.status == "stale_version"
    then retry_from_agent_response again a resp
    else apply_failed a resp

-- `appliedVersion <= 0` stands for the version that was sent.
unfoldable pub accepted : ℤ → AgentResponse → AgentResponse
accepted version resp = record resp {
  applied_version = if leb_ℤ resp.applied_version (pos 0) then version else resp.applied_version;
}

unfoldable pub on_success : Attempt → AgentResponse → Action World AgentResponse
unfolding event_of insert_sync_event mark_sync_success accepted
on_success a resp = do
  insert_sync_event (event_of a "ok" none)
  mark_sync_success a.node.id (accepted a.version resp).applied_version
  pure (accepted a.version resp)

unfoldable pub decode_failed : Attempt → String → Action World AgentResponse
unfolding log_failure
decode_failed a e = do
  log_failure a "decode_error" e (str_ptr e)
  raise ("decode node agent response: " ++ e)

unfoldable pub on_answer : Retry → Attempt → Result AgentResponse → Action World AgentResponse
unfolding decode_failed on_refusal on_success
on_answer retry a (err e) = decode_failed a e
on_answer retry a (ok resp) = if resp.ok then on_success a resp else on_refusal retry a resp

unfoldable pub decode_answer : Option Body → Result AgentResponse
unfolding decode_response
decode_answer none = err "unexpected end of JSON input"
decode_answer (some body) = decode_response body

unfoldable pub on_call : Retry → Attempt → Option String → Action World AgentResponse
unfolding on_call_error on_answer decode_answer
on_call retry a (some message) = on_call_error retry a message (decode_answer a.answer.result.body)
on_call retry a none = on_answer retry a (decode_answer a.answer.result.body)

unfoldable pub attempt_with : Retry → Node → List AccessWithUser → ℤ → Action World AgentResponse
unfolding on_call sync sync_payload
attempt_with retry node assigned version = do
  answer ← sync node (sync_payload node assigned version)
  on_call retry (record { node = node; assigned = assigned; version = version; answer = answer })
      answer.error

-- `syncNodeAttempt`: its only recursive call passes `allowRetry = false`.
unfoldable pub sync_node_attempt :
    Bool → Node → List AccessWithUser → ℤ → Action World AgentResponse
unfolding attempt_with
sync_node_attempt false = attempt_with none
sync_node_attempt true = attempt_with (some (attempt_with none))

unfoldable pub sync_node : String → Action World AgentResponse
unfolding get fetch_and_reconcile_status bump_version active_access_for_node sync_node_attempt
sync_node id = do
  before ← get id
  fetch_and_reconcile_status before
  node ← get id
  version ← bump_version id
  assigned ← active_access_for_node id
  sync_node_attempt true node assigned version

abbrev pub node_error : Node → Result AgentResponse → List String
node_error node (ok resp) = []
node_error node (err e) = (node.node_id ++ ": " ++ e) ∷ []

-- One node of `SyncAllNodes`: its error does not stop the others.
unfoldable pub sync_one : Node → Action World (List String) → Action World (List String)
unfolding sync_node
sync_one node others = do
  result ← attempt (sync_node node.id)
  errors ← others
  pure (List.◌++◌ (node_error node result) errors)

unfoldable pub sync_each : List Node → Action World (List String)
unfolding sync_one
sync_each [] = pure []
sync_each (node ∷ nodes) =
    let others = sync_each nodes in if not node.enabled then others else sync_one node others

abbrev pub report : List String → Action World (Unit {0})
report [] = pure tt
report (e ∷ errors) = raise (join (e ∷ errors) "; ")

unfoldable pub sync_all_nodes : Action World (Unit {0})
unfolding list sync_each
sync_all_nodes = do nodes ← list; errors ← sync_each nodes; report errors
