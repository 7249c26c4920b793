-- ===== src/Telemetry/Requests.antt =====
-- internal/nodes/agent_client.go: asking an agent for its sessions. The JSON decoder is a parameter.
use Prim.Native.String.{◌++◌}
use vetka_backend_panel.Prelude.{
  String, Bool, not, ◌&&◌, Option, none, some, ◌==◌, if◌then◌else◌, ltb,
}
use vetka_backend_panel.Prelude.Text.{itoa}
use vetka_backend_panel.Prelude.Effects.{Result, ok, err, Action, ◌>>=◌, lift}
use vetka_backend_panel.Nodes.Models.{Node, Body}
use vetka_backend_panel.Nodes.Client.{Call, call}
use vetka_backend_panel.Telemetry.Models.{TelemetryResponse}
use vetka_backend_panel.World.{World}

unfoldable pub checked_response : Node → TelemetryResponse → Result TelemetryResponse
checked_response node r =
    if not r.ok
    then err "telemetry response returned ok=false"
    else if not (r.node_id == "") && not (r.node_id == node.node_id)
    then err "telemetry node_id mismatch"
    else if not (r.protocol_type == "") && not (r.protocol_type == node.protocol_type)
    then err "telemetry protocol_type mismatch"
    else ok r

abbrev pub checked_or_error : Node → Result TelemetryResponse → Result TelemetryResponse
checked_or_error node (err e) = err ("decode telemetry response: " ++ e)
checked_or_error node (ok r) = checked_response node r

module _ (decode : Option Body → Result TelemetryResponse) where
  abbrev pub response_unless : Option String → Node → Call → Result TelemetryResponse
  response_unless none node c = checked_or_error node (decode c.result.body)
  response_unless (some e) node c =
      if ltb 0 c.result.status_code
      then err ("telemetry request failed with http " ++ itoa c.result.status_code)
      else err "telemetry request failed"

  unfoldable pub telemetry_sessions : Node → Bool → Action World TelemetryResponse
  unfolding ◌>>=◌ call checked_response itoa
  telemetry_sessions node recent = do
    c ←
        call node "GET"
          ("/v1/telemetry/sessions" ++ (if recent then "?include_recent=true" else "")) none
    lift (response_unless c.error node c)
