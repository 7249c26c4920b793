-- ===== src/Nodes/Status.antt =====
-- internal/nodes/manager.go: reading a node agent's status and recording it.
use Prim.Native.String.{◌++◌}
use mathlib.Core.List
use vetka_backend_panel.Prelude.{
  String, Bool, not, ◌&&◌, Option, none, some, List, [], ◌∷◌, ◌==◌, if◌then◌else◌,
}
use vetka_backend_panel.Prelude.Int.{ℤ, pos, leb_ℤ}
use vetka_backend_panel.Prelude.Text.{join}
use vetka_backend_panel.Prelude.Effects.{
  Result, ok, err, Action, pure, raise, lift, ignore, ◌>>=◌, ◌>>◌,
}
use vetka_backend_panel.Nodes.Models.{Node, AgentResponse, AgentStatusResponse}
use vetka_backend_panel.Nodes.Repository.{get}
use vetka_backend_panel.Nodes.Updates.{sync_remote_state, mark_status}
use vetka_backend_panel.Nodes.Client.{Call, health, status_info}
use vetka_backend_panel.World.{World}

-- One entry of `parts`, there if the test passes.
abbrev pub part : Bool → String → List String
part b s = if b then s ∷ [] else []

abbrev pub text_or : String → List String → String
text_or fallback [] = fallback
text_or fallback (p ∷ ps) = join (p ∷ ps) ": "

abbrev pub no_ok : String
no_ok = "node agent returned ok=false"

abbrev pub deref : Option String → String
deref none = ""
deref (some s) = s

unfoldable pub agent_response_error : AgentResponse → String
unfolding join
agent_response_error resp = text_or no_ok (
    List.◌++◌ (part (not (resp.status == "") && not (resp.status == "ok")) resp.status) (
      List.◌++◌ (part (not (resp.error == "")) resp.error)
        (part (not (resp.message == "") && not (resp.message == resp.error)) resp.message)))

unfoldable pub status_message : AgentStatusResponse → String
unfolding join
status_message status = text_or no_ok (
    List.◌++◌ (part (not (status.error == "")) status.error) (
      List.◌++◌
        (part (not (status.message == "") && not (status.message == status.error)) status.message)
        (part (not (deref status.last_error == "")) (deref status.last_error))))

-- `strPtr`: the empty text is no text.
unfoldable pub str_ptr : String → Option String
str_ptr value = if value == "" then none else some value

unfoldable pub remote_applied_version_from_status : AgentStatusResponse → ℤ
remote_applied_version_from_status s =
    if leb_ℤ s.applied_version (pos 0) then s.current_version else s.applied_version

unfoldable pub remote_applied_version_from_response : AgentResponse → ℤ
remote_applied_version_from_response r =
    if leb_ℤ r.applied_version (pos 0) then r.current_version else r.applied_version

unfoldable pub check_status : Node → AgentStatusResponse → Result AgentStatusResponse
unfolding status_message
check_status node status =
    if not status.ok
    then err ("node agent /status failed: " ++ status_message status)
    else if not (status.node_id == "") && not (status.node_id == node.node_id)
    then err ("node_id mismatch: form=" ++ node.node_id ++ " agent=" ++ status.node_id)
    else if not (status.protocol_type == "") && not (status.protocol_type == node.protocol_type)
    then err
        ("protocol_type mismatch: form=" ++ node.protocol_type ++ " agent=" ++ status.protocol_type)
    else ok status

unfoldable pub validate_node_agent_config : Node → Action World AgentStatusResponse
unfolding status_info check_status
validate_node_agent_config node = do
  info ← status_info node
  status ← lift info
  lift (check_status node status)

-- `SyncRemoteState` with what a status reports.
unfoldable pub adopt_status : String → AgentStatusResponse → Action World (Unit {0})
unfolding sync_remote_state remote_applied_version_from_status
adopt_status id status =
    sync_remote_state id status.current_version (remote_applied_version_from_status status)
      status.last_error

unfoldable pub validate_node_status : String → Action World AgentStatusResponse
unfolding get validate_node_agent_config adopt_status
validate_node_status id = do
  node ← get id
  status ← validate_node_agent_config node
  adopt_status node.id status
  pure status

-- `recordStatus`: the write may fail unnoticed; the call's own error comes back.
unfoldable pub record_status : {A : Type 0} → String → Result A → Action World A
unfolding mark_status
record_status id (ok a) = do ignore (mark_status id "ok" none); pure a
record_status id (err e) = do ignore (mark_status id "error" (some e)); raise e

unfoldable pub reconcile_status : String → AgentStatusResponse → Action World AgentStatusResponse
unfolding status_message str_ptr adopt_status mark_status
reconcile_status id status =
    if not status.ok
    then (do
      ignore (mark_status id "error" (str_ptr (status_message status)))
      raise ("node agent status failed: " ++ status_message status))
    else (do adopt_status id status; pure status)

unfoldable pub fetch_and_reconcile_status : Node → Action World AgentStatusResponse
unfolding status_info record_status reconcile_status
fetch_and_reconcile_status node = do
  info ← status_info node
  status ← record_status node.id info
  reconcile_status node.id status

abbrev pub call_error : Call → Result (Unit {0})
call_error c = elim c.error [ none ↦ ok tt | some e ↦ err e ]

unfoldable pub check_node_health : String → Action World AgentStatusResponse
unfolding get health record_status fetch_and_reconcile_status
check_node_health id = do
  node ← get id
  c ← health node
  record_status id (call_error c)
  fetch_and_reconcile_status node

unfoldable pub fetch_node_status : String → Action World AgentStatusResponse
unfolding get fetch_and_reconcile_status
fetch_node_status id = do node ← get id; fetch_and_reconcile_status node
