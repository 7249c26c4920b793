-- ===== src/Nodes/Client.antt =====
-- internal/nodes/agent_client.go: the requests to a node agent. A request that cannot be built and one
-- that gets no answer both are an exchange with no reply. Timeouts are answers that do not come.
use Prim.Native.String.{◌++◌}
use vetka_backend_panel.Prelude.{String, ◌||◌, Option, none, some, if◌then◌else◌, ltb, nat_eq}
use vetka_backend_panel.Prelude.Text.{trim_right, trim_space, itoa}
use vetka_backend_panel.Prelude.Effects.{Result, ok, err, Action, pure, ◌>>=◌}
use vetka_backend_panel.Nodes.Models.{
  Node, SyncPayload, AgentStatusResponse, AgentCallResult, Body, text, decode_status, Request,
  Exchange, no_reply, reply,
}
use vetka_backend_panel.World.{World, exchange}

-- What `do` returns: a result, and an error beside it.
pub record Call : Type 0 where
  pub result : AgentCallResult
  pub error : Option String

unfoldable pub outcome : Exchange → Call
unfolding text trim_space itoa
outcome (no_reply e) = record { result = record { status_code = 0; body = none }; error = some e }
outcome (reply code body) = record {
  result = record { status_code = code; body = some body };
  error =
      if ltb code 200 || ltb 299 code
      then some ("node agent returned " ++ itoa code ++ ": " ++ trim_space (text body))
      else none;
}

unfoldable pub request : Node → String → String → Option SyncPayload → Request
unfolding trim_right
request node method path payload = record {
  node = node;
  method = method;
  url = trim_right (nat_eq b'/') node.api_url ++ path;
  payload = payload;
}

-- `do`, which never fails in this reading: the caller looks at the error that the call carries.
unfoldable pub call : Node → String → String → Option SyncPayload → Action World Call
unfolding request outcome exchange
call node method path payload = do
  answer ← exchange (request node method path payload)
  pure (outcome answer)

unfoldable pub health : Node → Action World Call
unfolding call
health node = call node "GET" "/health" none

unfoldable pub status : Node → Action World Call
unfolding call
status node = call node "GET" "/status" none

unfoldable pub stats : Node → Action World Call
unfolding call
stats node = call node "GET" "/v1/stats" none

unfoldable pub decode_body : Option Body → Result AgentStatusResponse
unfolding decode_status
decode_body none = err "unexpected end of JSON input"
decode_body (some body) = decode_status body

abbrev pub decoded : Result AgentStatusResponse → Result AgentStatusResponse
decoded (ok s) = ok s
decoded (err e) = err ("decode /status response: " ++ e)

unfoldable pub status_of : Call → Result AgentStatusResponse
unfolding decode_body
status_of c = elim c.error [ some e ↦ err e | none ↦ decoded (decode_body c.result.body) ]

-- `StatusInfo`: the decoded status, or the error, as a value.
unfoldable pub status_info : Node → Action World (Result AgentStatusResponse)
unfolding status status_of
status_info node = do c ← status node; pure (status_of c)

-- `Sync`: the payload always has a JSON form.
unfoldable pub sync : Node → SyncPayload → Action World Call
unfolding call
sync node payload = call node "POST" "/v1/sync" (some payload)
