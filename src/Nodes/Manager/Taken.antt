-- ===== src/Nodes/Manager/Taken.antt =====
-- What counts as a push that the agent of a node has taken: internal/nodes/manager.go.
use vetka_backend_panel.Prelude.{
  ℕ, String, Bool, true, false, ◌&&◌, ◌||◌, ◌≡◌, ap, ◌∙◌, Option, none, some, List, [], ◌∷◌, ◌++◌,
  ◌==◌, arith, leb,
}
use vetka_backend_panel.Prelude.Effects.{Result, ok, err}
use vetka_backend_panel.Nodes.Models.{
  SyncEvent, AgentResponse, Body, malformed, json, Exchange, no_reply, reply, decode_response,
}
use vetka_backend_panel.Nodes.Client
use vetka_backend_panel.Nodes.Client.{Call}
use vetka_backend_panel.Nodes.Sync
use vetka_backend_panel.Nodes.Sync.{Attempt, Retry}

abbrev pub is_2xx : Option ℕ → Bool
is_2xx none = false
is_2xx (some code) = leb 200 code && leb code 299

-- An answer in which the agent says that it has taken the push.
abbrev pub accepts : Option Body → Bool
accepts none = false
accepts (some (malformed s e)) = false
accepts (some (json s (err e) t)) = false
accepts (some (json s (ok r) t)) = r.ok

-- A push to the node that the agent answered with a 2xx code and `ok` is in the log, as a success.
abbrev pub has_accepted : String → List SyncEvent → Bool
has_accepted id [] = false
has_accepted id (e ∷ es) =
    (e.node_id == id && e.status == "ok" && is_2xx e.http_status && accepts e.response_json)
    || has_accepted id es

pub has_accepted-append :
    (id : String) (xs ys : List SyncEvent)
    → has_accepted id ys ≡ true
    → has_accepted id (xs ++ ys) ≡ true
has_accepted-append id [] ys h = h
has_accepted-append id (x ∷ xs) ys h = ground (arith, has_accepted-append id xs ys h)

abbrev pub ok_of : AgentResponse → Result AgentResponse → Bool
ok_of q (ok r) = r.ok
ok_of q (err e) = q.ok

pub decoded-accepts :
    (body : Option Body) (r : AgentResponse)
    → Sync.decode_answer body ≡ ok r
    → r.ok ≡ true
    → accepts body ≡ true
unfolding Sync.decode_answer decode_response
decoded-accepts none r d h = cc
decoded-accepts (some (malformed s e)) r d h = cc
decoded-accepts (some (json s (err e) t)) r d h = cc
decoded-accepts (some (json s (ok q) t)) r d h = ap (ok_of q) d ∙ h

-- Only an answer with a 2xx code is a call without an error.
abbrev pub Fine : Call → Type 0
Fine c = c.error ≡ none → is_2xx (some c.result.status_code) ≡ true

pub outcome-Fine : (x : Exchange) → Fine (Client.outcome x)
unfolding Client.outcome
outcome-Fine (no_reply e) h = cc
outcome-Fine (reply code body) h = ground (arith, h)
