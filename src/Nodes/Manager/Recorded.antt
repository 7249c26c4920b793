-- ===== src/Nodes/Manager/Recorded.antt =====
-- What a synchronisation attempt of internal/nodes/manager.go returns, sends and records for each answer,
-- described without the code's own helpers.
use Prim.Native.String.{◌++◌}
use mathlib.Core.List
use vetka_backend_panel.Prelude.{
  ℕ, String, Bool, true, false, not, ◌&&◌, ◌||◌, ◌≡◌, refl, Option, none, some, List, ◌∷◌, ◌==◌,
  map, if◌then◌else◌, ltb, nat_eq,
}
use vetka_backend_panel.Prelude.Int.{ℤ, pos, leb_ℤ}
use vetka_backend_panel.Prelude.Text.{trim_right, trim_space, itoa, join}
use vetka_backend_panel.Prelude.Effects.{Result, ok, err}
use vetka_backend_panel.Users.Models.{AccessWithUser}
use vetka_backend_panel.Nodes.Models.{
  Node, SyncPayload, AgentResponse, AgentStatusResponse, Body, json, malformed, Exchange, reply,
  no_reply,
}
use vetka_backend_panel.Nodes.Repository.{update_node}
use vetka_backend_panel.Nodes.Status
use vetka_backend_panel.Nodes.Sync.{agent_user}
use vetka_backend_panel.World.{World, rest}

-- What an attempt comes to: its result, the event, and the new row at a time.
pub record Verdict : Type 0 where
  pub result : Result AgentResponse
  pub code : ℕ
  pub body : Option Body
  pub status : String
  pub error : Option String
  pub row : ℕ → Node → Node

abbrev pub failure : ℕ → Option Body → String → String → String → Verdict
failure code body status message returned = record {
  result = err returned;
  code = code;
  body = body;
  status = status;
  error = if message == "" then none else some message;
  row = λ now m. record m {
    last_error = some message;
    last_status = some status;
    last_seen_at = some now;
    setup_state = if status == "http_error" then "unreachable" else m.setup_state;
    updated_at = now;
  };
}

-- Of the status, the error and the message of a refusal, those that say something.
abbrev reason_of : Bool → Bool → Bool → String → String → String → String
reason_of false false false status error message = "node agent returned ok=false"
reason_of true false false status error message = status
reason_of false true false status error message = error
reason_of false false true status error message = message
reason_of true true false status error message = status ++ ": " ++ error
reason_of true false true status error message = status ++ ": " ++ message
reason_of false true true status error message = error ++ ": " ++ message
reason_of true true true status error message = status ++ ": " ++ error ++ ": " ++ message

abbrev pub reason : AgentResponse → String
reason r =
    reason_of (not (r.status == "") && not (r.status == "ok")) (not (r.error == ""))
      (not (r.message == "") && not (r.message == r.error)) r.status r.error r.message

abbrev pub applied_version : ℤ → AgentResponse → ℤ
applied_version v r = if leb_ℤ r.applied_version (pos 0) then v else r.applied_version

abbrev pub success : ℤ → ℕ → Body → AgentResponse → Verdict
success v code body r = record {
  result = ok (record r { applied_version = applied_version v r });
  code = code;
  body = some body;
  status = "ok";
  error = none;
  row = λ now m. record m {
    last_applied_version = applied_version v r;
    last_sync_at = some now;
    last_error = none;
    last_status = some "ok";
    last_seen_at = some now;
    setup_state = "connected";
    updated_at = now;
  };
}

abbrev pub refusal : ℕ → Body → AgentResponse → Verdict
refusal code body r =
    failure code (some body) (if r.status == "" then "apply_failed" else r.status) (reason r)
      ("node agent sync failed: " ++ reason r)

abbrev pub by_response : ℤ → ℕ → Body → Result AgentResponse → Verdict
by_response v code body (err e) =
    failure code (some body) "decode_error" e ("decode node agent response: " ++ e)
by_response v code body (ok r) = if r.ok then success v code body r else refusal code body r

-- What the answer to version `v` comes to: no answer; JSON with its decoding, with a code.
abbrev pub unanswered : String → Verdict
unanswered e = failure 0 none "http_error" e e

abbrev pub verdict : ℤ → ℕ → String → Result AgentResponse → Result AgentStatusResponse → Verdict
verdict v code s d t =
    if ltb code 200 || ltb 299 code
    then failure code (some (json s d t)) "http_error"
        ("node agent returned " ++ itoa code ++ ": " ++ trim_space s)
        ("node agent returned " ++ itoa code ++ ": " ++ trim_space s)
    else by_response v code (json s d t) d

abbrev pub payload : Node → List AccessWithUser → ℤ → SyncPayload
payload n us v = record {
  node_id = n.node_id;
  config_version = v;
  protocol_type = n.protocol_type;
  users = map (agent_user n) us;
}

-- One request is sent, one event is logged, and the row of the node is the only one that changes.
abbrev pub recorded : Node → List AccessWithUser → ℤ → Verdict → World → World
recorded n us v x w = record w {
  sent =
      record {
        node = n;
        method = "POST";
        url = trim_right (nat_eq b'/') n.api_url ++ "/v1/sync";
        payload = some (payload n us v);
      }
      ∷ w.sent;
  network = rest w.network;
  events =
      record {
        node_id = n.id;
        config_version = v;
        status = x.status;
        http_status = some x.code;
        request_json = payload n us v;
        response_json = x.body;
        error = x.error;
        created_at = w.now;
      }
      ∷ w.events;
  nodes = update_node n.id (x.row w.now) w.nodes;
}

-- Only the request is sent.
abbrev pub sent_only : Node → List AccessWithUser → ℤ → World → World
sent_only n us v w = record w {
  sent =
      record {
        node = n;
        method = "POST";
        url = trim_right (nat_eq b'/') n.api_url ++ "/v1/sync";
        payload = some (payload n us v);
      }
      ∷ w.sent;
  network = rest w.network;
}

-- The result and the state that an answer leaves. An answer that is not JSON cannot be logged.
abbrev pub settled :
    Node → List AccessWithUser → ℤ → World → Exchange → Result AgentResponse × World
settled n us v w (no_reply e) = ((unanswered e).result, recorded n us v (unanswered e) w)
settled n us v w (reply code (malformed s e)) =
    (err "invalid input syntax for type json", sent_only n us v w)
settled n us v w (reply code (json s d t)) =
    ((verdict v code s d t).result, recorded n us v (verdict v code s d t) w)

-- The answer says that the version is stale.
abbrev pub is_stale : Result AgentResponse → Bool
is_stale (err e) = false
is_stale (ok r) = r.status == "stale_version"

abbrev pub says_stale : Exchange → Bool
says_stale (no_reply e) = false
says_stale (reply code (malformed s e)) = false
says_stale (reply code (json s d t)) = is_stale d

reason_by :
    (p q s : Bool) (x y z : String)
    → Status.text_or Status.no_ok
        (List.◌++◌ (Status.part p x) (List.◌++◌ (Status.part q y) (Status.part s z)))
      ≡ reason_of p q s x y z
unfolding join
reason_by false false false x y z = refl
reason_by true false false x y z = refl
reason_by false true false x y z = refl
reason_by false false true x y z = refl
reason_by true true false x y z = refl
reason_by true false true x y z = refl
reason_by false true true x y z = refl
reason_by true true true x y z = refl

pub agent_response_error-reason : (r : AgentResponse) → Status.agent_response_error r ≡ reason r
unfolding Status.agent_response_error
agent_response_error-reason r = reason_by _ _ _ r.status r.error r.message
