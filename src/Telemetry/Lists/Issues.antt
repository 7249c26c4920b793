-- ===== src/Telemetry/Lists/Issues.antt =====
-- The issues of the nodes of internal/telemetry/service.go.
use vetka_backend_panel.Prelude.{
  String, Bool, true, false, ◌≡◌, refl, ◌∙◌, ap, Option, none, some, List, ◌==◌, if◌then◌else◌, inl,
  inr, ◌⊎◌,
}
use vetka_backend_panel.Prelude.Text.{trim_space}
use vetka_backend_panel.Prelude.Effects.{Result}
use vetka_backend_panel.Users.Models.{User}
use vetka_backend_panel.Nodes.Models.{Node}
use vetka_backend_panel.Telemetry.Models.{TelemetryResponse}
use vetka_backend_panel.Telemetry.Resolve.{FallbackIndex}
use vetka_backend_panel.Telemetry.Views.{skip_node, view_for, skipped_view, fetch_node_view}
use vetka_backend_panel.Telemetry.Lists.{node_issue_code, is_missing}

-- The reasons that there are.
abbrev pub IsReason : String → Type 0
IsReason r = (r ≡ "planned") ⊎ (is_missing r ≡ true)

IsSome : Option String → Type 0
IsSome none = Unit
IsSome (some r) = IsReason r

reasons-IsReason :
    (b c d e : Bool)
    → IsSome (
        if b
        then some "planned"
        else if c
        then some "missing_api_url"
        else if d
        then some "missing_node_id"
        else if e
        then some "missing_node_secret"
        else none)
unfolding IsSome
reasons-IsReason true c d e = inl refl
reasons-IsReason false true d e = inr refl
reasons-IsReason false false true e = inr refl
reasons-IsReason false false false true = inr refl
reasons-IsReason false false false false = tt

skip_node-IsReason : (node : Node) → IsSome (skip_node node)
unfolding skip_node
skip_node-IsReason node =
    reasons-IsReason (node.setup_state == "planned") (trim_space node.api_url == "")
      (trim_space node.node_id == "") (trim_space node.node_secret == "")

pick :
    (b c : Bool) (r s : String)
    → c ≡ true
    → (if b then "" else if c then r else s) ≡ (if b then "" else r)
pick b c r s h = rw h refl

skipped-issue :
    (node : Node) (reason : String)
    → IsReason reason
    → node_issue_code (skipped_view node reason) ≡ (if reason == "planned" then "" else reason)
unfolding node_issue_code skipped_view
skipped-issue node reason (inl e) = rw e refl
skipped-issue node reason (inr e) = pick (reason == "planned") (is_missing reason) reason _ e

-- A node that is skipped shows its reason as its issue, whatever its agent would answer, except that a
-- planned node has no issue.
pub fetch_node_view-skipped :
    (node : Node) (reason : String) (answer : Result TelemetryResponse) (us : List User)
    (index : FallbackIndex) (strict : Bool)
    → skip_node node ≡ some reason
    → node_issue_code (fetch_node_view node answer us index strict)
      ≡ (if reason == "planned" then "" else reason)
unfolding fetch_node_view IsSome
fetch_node_view-skipped node reason answer us index strict skipped =
    let known : IsReason reason = rw skipped at (skip_node-IsReason node) in
    ap (λ o. node_issue_code (view_for o node answer us index strict)) skipped
    ∙ skipped-issue node reason known
