-- ===== src/I18n/English.antt =====
-- The English texts of internal/http/handlers/i18n.go, in the order of the source.
use vetka_backend_panel.Prelude.{String, List, [], ◌∷◌, ◌++◌}

unfoldable pub shell : List (String × String)
shell =
    ("page.dashboard", "Dashboard")
    ∷ ("page.users", "Users")
    ∷ ("page.user_detail", "User Detail")
    ∷ ("page.nodes", "Nodes")
    ∷ ("page.sessions", "Sessions")
    ∷ ("page.node_detail", "Node Detail")
    ∷ ("page.node_edit", "Edit Node")
    ∷ ("page.node_created", "Node Created")
    ∷ ("page.login", "Login")
    ∷ ("brand.tagline", "Reserve VPN control plane")
    ∷ ("nav.primary", "Primary navigation")
    ∷ ("nav.dashboard", "Dashboard")
    ∷ ("nav.users", "Users")
    ∷ ("nav.nodes", "Nodes")
    ∷ ("nav.sessions", "Sessions")
    ∷ ("sidebar.backend_ready", "Backend ready. Health checks use the local database connection.")
    ∷ ("sidebar.language", "Interface language")
    ∷ ("lang.ru", "RU")
    ∷ ("lang.en", "EN")
    ∷ ("topbar.open_navigation", "Open navigation")
    ∷ ("topbar.close_dialog", "Close dialog")
    ∷ ("toast.dismiss", "Dismiss notification")
    ∷ ("qr.title", "QR Code")
    ∷ ("qr.default_title", "Subscription QR")
    ∷ ("button.copy_url", "Copy URL")
    ∷ ("button.close", "Close")
    ∷ ("button.copy", "Copy")
    ∷ ("button.copied", "Copied")
    ∷ ("button.open", "Open")
    ∷ ("button.cancel", "Cancel")
    ∷ ("button.save", "Save")
    ∷ ("button.sync_all_nodes", "Sync All Nodes")
    ∷ ("button.reconcile_expired", "Reconcile Expired Users")
    ∷ ("status.no_display_name", "No display name")
    ∷ ("status.unlimited", "Unlimited")
    ∷ ("status.active", "Active")
    ∷ ("status.expired", "Expired")
    ∷ ("status.expires_soon", "Expires Soon")
    ∷ ("status.disabled", "Disabled")
    ∷ ("status.hidden", "Hidden")
    ∷ ("status.visible", "Visible")
    ∷ ("status.enabled", "Enabled")
    ∷ ("status.disabled_access", "Disabled")
    ∷ ("status.connected", "Connected")
    ∷ ("status.planned", "Planned")
    ∷ ("status.unreachable", "Unreachable")
    ∷ ("status.offline", "Offline")
    ∷ ("status.ok", "OK")
    ∷ []

unfoldable pub lists : List (String × String)
lists =
    ("dashboard.eyebrow", "Infrastructure")
    ∷ ("dashboard.heading", "Dashboard")
    ∷ (
      "dashboard.intro",
      "Control the reserve VPN plane, keep node state tidy, and catch expiry-driven revokes before they linger.",
    )
    ∷ ("dashboard.total_users", "Total Users")
    ∷ ("dashboard.active_users", "Active Users")
    ∷ ("dashboard.expired_users", "Expired Users")
    ∷ ("dashboard.disabled_users", "Disabled Users")
    ∷ ("dashboard.total_nodes", "Total Nodes")
    ∷ ("dashboard.connected", "Connected")
    ∷ ("dashboard.unreachable", "Unreachable")
    ∷ ("dashboard.planned", "Planned")
    ∷ ("dashboard.sync_errors", "Sync Errors (24h)")
    ∷ ("dashboard.infrastructure", "Infrastructure Health")
    ∷ ("dashboard.infrastructure_hint", "Latest node state, versions, and last observed errors.")
    ∷ ("dashboard.view_all_nodes", "View all nodes")
    ∷ ("dashboard.desired", "Desired")
    ∷ ("dashboard.applied", "Applied")
    ∷ ("dashboard.last_seen", "Last Seen")
    ∷ ("dashboard.assigned_users", "Assigned Users")
    ∷ ("dashboard.no_nodes", "No nodes yet")
    ∷ (
      "dashboard.no_nodes_hint",
      "Add the first planned or adopted node to start managing infrastructure.",
    )
    ∷ ("dashboard.upcoming", "Upcoming Expirations")
    ∷ ("dashboard.upcoming_hint", "Rendered in")
    ∷ ("dashboard.view_users", "View users")
    ∷ ("dashboard.no_upcoming", "No upcoming expirations")
    ∷ ("dashboard.no_upcoming_hint", "The next revoke window is quiet right now.")
    ∷ ("dashboard.recent_sync", "Recent Sync Events")
    ∷ ("dashboard.recent_sync_hint", "Latest backend-to-node sync attempts.")
    ∷ ("dashboard.timestamp", "Timestamp")
    ∷ ("dashboard.node", "Node")
    ∷ ("dashboard.config_version", "Config Version")
    ∷ ("dashboard.status", "Status")
    ∷ ("dashboard.http", "HTTP")
    ∷ ("dashboard.error", "Error")
    ∷ ("dashboard.no_sync_events", "No sync events yet")
    ∷ ("sessions.heading", "Sessions")
    ∷ (
      "sessions.intro",
      "Read observed session telemetry from VetkaNodeAgent without touching desired state.",
    )
    ∷ ("sessions.active_only", "Active")
    ∷ ("sessions.include_recent", "Active and Recent")
    ∷ ("sessions.recent_only", "Recent")
    ∷ ("sessions.refresh", "Refresh")
    ∷ ("sessions.active_count", "Active Sessions")
    ∷ ("sessions.unique_ips", "Unique IPs")
    ∷ ("sessions.collectors_ok", "Collectors OK")
    ∷ ("sessions.collectors_degraded", "Collectors Degraded")
    ∷ ("sessions.status", "Status")
    ∷ ("sessions.user", "User")
    ∷ ("sessions.node", "Node")
    ∷ ("sessions.protocol", "Protocol")
    ∷ ("sessions.client_ip", "IP")
    ∷ ("sessions.first_seen", "First Seen")
    ∷ ("sessions.last_seen", "Last Seen")
    ∷ ("sessions.upload", "Upload")
    ∷ ("sessions.download", "Download")
    ∷ ("sessions.no_active", "No active sessions")
    ∷ ("sessions.no_recent", "No recent sessions")
    ∷ ("sessions.unknown_user", "Unknown user")
    ∷ ("sessions.ip_unavailable_mieru", "IP unavailable for Mieru")
    ∷ ("sessions.ip_unknown", "Unknown")
    ∷ ("sessions.collector_ok", "Collector OK")
    ∷ ("sessions.collector_partial", "Collector partial")
    ∷ ("sessions.collector_unavailable", "Collector unavailable")
    ∷ ("sessions.collector_disabled", "Collector disabled")
    ∷ ("sessions.collector_status", "Collector Status")
    ∷ ("sessions.last_successful_collection", "Last Successful Collection")
    ∷ ("sessions.capabilities", "Capabilities")
    ∷ ("sessions.capability_client_ip", "Client IP")
    ∷ ("sessions.capability_per_user_activity", "Per-user Activity")
    ∷ ("sessions.capability_traffic_counters", "Traffic Counters")
    ∷ ("sessions.capability_first_seen", "First Seen")
    ∷ ("sessions.capability_last_seen", "Last Seen")
    ∷ ("sessions.issue_missing_api_url", "Agent URL is not configured")
    ∷ ("sessions.issue_missing_node_id", "Node ID is not configured")
    ∷ ("sessions.issue_missing_node_secret", "Agent secret is not configured")
    ∷ ("sessions.issue_collector_warning", "The collector reported warnings")
    ∷ ("sessions.issue_collector_partial", "Telemetry collection is partial")
    ∷ ("sessions.issue_collector_unavailable", "Session telemetry is unavailable")
    ∷ ("sessions.issue_collector_disabled", "Session telemetry is disabled on the node")
    ∷ (
      "sessions.partial_warning",
      "Some nodes may be temporarily unavailable. Available sessions still render.",
    )
    ∷ ("sessions.node_unavailable", "Node unavailable")
    ∷ []

unfoldable pub users : List (String × String)
users =
    ("users.eyebrow", "Access Control")
    ∷ ("users.heading", "Users")
    ∷ ("users.intro", "users in the current view.")
    ∷ (
      "users.intro_suffix", "Creation, expiry revoke, and assignment changes stay server-rendered.",
    )
    ∷ ("users.create", "Create User")
    ∷ ("users.search", "Search")
    ∷ ("users.search_placeholder", "Username or display name")
    ∷ ("users.filter_status", "Status")
    ∷ ("users.filter_all", "All")
    ∷ ("users.filter_active", "Active")
    ∷ ("users.filter_expired", "Expired")
    ∷ ("users.filter_disabled", "Disabled")
    ∷ ("users.filter_expires_soon", "Expires Soon")
    ∷ ("users.sort", "Sort")
    ∷ ("users.sort_username", "Username")
    ∷ ("users.sort_expires_at", "Expires At")
    ∷ ("users.sort_created_at", "Created At")
    ∷ ("users.apply", "Apply")
    ∷ ("users.table.user", "User")
    ∷ ("users.table.status", "Status")
    ∷ ("users.table.expires_at", "Expires At")
    ∷ ("users.table.assigned_nodes", "Assigned Nodes")
    ∷ ("users.table.quota", "Quota")
    ∷ ("users.table.token", "Token")
    ∷ ("users.table.actions", "Actions")
    ∷ ("users.open", "Open")
    ∷ ("users.delete", "Delete")
    ∷ ("users.delete_confirm", "Delete this user and sync affected nodes?")
    ∷ ("users.no_matches", "No users match this view")
    ∷ ("users.no_matches_hint", "Try a different filter or create a new user.")
    ∷ ("users.create_title", "Create User")
    ∷ ("users.create_hint", "Provision a new subscription")
    ∷ ("users.username", "Username")
    ∷ ("users.display_name", "Display Name")
    ∷ ("users.expires_at", "Expires At")
    ∷ ("users.expires_help", "Empty means unlimited. Timezone:")
    ∷ ("users.quota_mb", "Quota MB")
    ∷ ("users.quota_help_text", "keeps metadata unlimited.")
    ∷ ("users.notes", "Notes")
    ∷ ("users.enabled", "Enabled")
    ∷ ("users.assign_nodes", "Assign Nodes")
    ∷ ("users.no_nodes", "No nodes available yet.")
    ∷ ("users.create_submit", "Create User")
    ∷ ("user_detail.eyebrow", "User Detail")
    ∷ ("user_detail.sync_nodes", "Sync Affected Nodes")
    ∷ ("user_detail.enable", "Enable")
    ∷ ("user_detail.disable", "Disable")
    ∷ ("user_detail.overview", "Overview")
    ∷ ("user_detail.status", "Status")
    ∷ ("user_detail.remaining", "Remaining")
    ∷ ("user_detail.subscription_token", "Subscription Token")
    ∷ ("user_detail.edit_title", "Edit User")
    ∷ ("user_detail.edit_hint", "State changes stay POST-only and sync affected nodes afterward.")
    ∷ ("user_detail.save", "Save")
    ∷ ("user_detail.subscription_links", "Subscription Links")
    ∷ (
      "user_detail.subscription_hint",
      "All QR codes are generated locally in the browser. Nothing leaves the panel.",
    )
    ∷ ("user_detail.assigned_nodes", "Assigned Nodes")
    ∷ ("user_detail.assigned_hint", "Protocol credentials stay masked in normal UI surfaces.")
    ∷ ("user_detail.assign_node", "Assign Node")
    ∷ ("user_detail.node", "Node")
    ∷ ("user_detail.protocol", "Protocol")
    ∷ ("user_detail.credentials", "Credentials")
    ∷ ("user_detail.access", "Access")
    ∷ ("user_detail.node_state", "Node State")
    ∷ ("user_detail.unassign", "Unassign")
    ∷ ("user_detail.unassign_confirm", "Unassign this node and sync it?")
    ∷ ("user_detail.no_assignments", "No node assignments yet")
    ∷ ("user_detail.danger", "Danger Zone")
    ∷ (
      "user_detail.danger_hint",
      "Use with intention; these actions can revoke access or remove the user entirely.",
    )
    ∷ ("user_detail.disable_user", "Disable User")
    ∷ ("user_detail.delete_user", "Delete User")
    ∷ ("user_detail.assign_title", "Assign Node")
    ∷ ("user_detail.assign_hint", "Attach protocol credentials")
    ∷ ("user_detail.protocol_username", "Protocol Username")
    ∷ ("user_detail.protocol_password", "Protocol Password")
    ∷ ("user_detail.generated_empty", "Generated when empty")
    ∷ ("user_detail.assign_submit", "Assign Node")
    ∷ ("user_detail.sessions", "User Sessions")
    ∷ (
      "user_detail.sessions_hint",
      "Observed activity across assigned nodes only. No enforcement is performed here.",
    )
    ∷ []

unfoldable pub nodes : List (String × String)
nodes =
    ("nodes.eyebrow", "Node Fleet")
    ∷ ("nodes.heading", "Nodes")
    ∷ (
      "nodes.intro",
      "Adopt existing agents, stage planned nodes, and inspect sync health without exposing raw secrets.",
    )
    ∷ ("nodes.add", "Add Node")
    ∷ ("nodes.sync_all", "Sync All")
    ∷ ("nodes.table.node", "Node")
    ∷ ("nodes.table.protocol", "Protocol")
    ∷ ("nodes.table.setup", "Setup")
    ∷ ("nodes.table.enabled", "Enabled")
    ∷ ("nodes.table.versions", "Versions")
    ∷ ("nodes.table.assigned_users", "Assigned Users")
    ∷ ("nodes.table.last_seen", "Last Seen")
    ∷ ("nodes.table.last_error", "Last Error")
    ∷ ("nodes.table.actions", "Actions")
    ∷ ("nodes.no_nodes", "No nodes yet")
    ∷ ("nodes.no_nodes_hint", "Create a planned node or adopt an existing agent.")
    ∷ ("nodes.modal_add", "Add Node")
    ∷ ("nodes.modal_type", "Planned or adopted")
    ∷ ("nodes.tab_planned", "Planned Node")
    ∷ ("nodes.tab_adopt", "Adopt Existing Node")
    ∷ ("nodes.planned_hint_prefix", "Use planned mode before the server has")
    ∷ (
      "nodes.planned_hint_suffix",
      "installed. The panel generates the one-time bootstrap secret and install command without calling",
    )
    ∷ (
      "nodes.adopt_hint_prefix",
      "Use adopt mode when the agent already exists. The panel validates",
    )
    ∷ ("nodes.adopt_hint_middle", ", confirms")
    ∷ ("nodes.adopt_hint_suffix", "and protocol, then aligns versions with the remote node.")
    ∷ ("nodes.node_id", "Node ID")
    ∷ ("nodes.node_id_generated", "Generated when empty")
    ∷ ("nodes.api_url_optional", "Optional until agent install")
    ∷ ("nodes.node_secret", "Node Secret")
    ∷ ("nodes.node_secret_generated", "Generated when empty")
    ∷ ("nodes.create_planned", "Create Planned Node")
    ∷ ("nodes.create_adopt", "Adopt Existing Node")
    ∷ ("nodes.adopt_api_placeholder", "http://host:2222")
    ∷ ("node_detail.eyebrow", "Node Detail")
    ∷ ("node_detail.health", "Health")
    ∷ ("node_detail.status_action", "Status")
    ∷ ("node_detail.sync", "Sync")
    ∷ ("node_detail.edit", "Edit")
    ∷ ("node_detail.overview", "Overview")
    ∷ (
      "node_detail.overview_hint",
      "Stored secret remains masked outside the one-time create screen.",
    )
    ∷ ("node_detail.domain", "Domain")
    ∷ ("node_detail.api_url", "API URL")
    ∷ ("node_detail.setup_state", "Setup State")
    ∷ ("node_detail.desired_version", "Desired Config Version")
    ∷ ("node_detail.applied_version", "Applied Version")
    ∷ ("node_detail.last_status", "Last Status")
    ∷ ("node_detail.last_seen", "Last Seen")
    ∷ ("node_detail.last_sync", "Last Sync")
    ∷ ("node_detail.last_error", "Last Error")
    ∷ ("node_detail.node_secret", "Node Secret")
    ∷ ("node_detail.protocol_settings", "Protocol Settings")
    ∷ ("node_detail.protocol_hint", "Public runtime settings only.")
    ∷ ("node_detail.ports", "Ports")
    ∷ ("node_detail.mtu", "MTU")
    ∷ ("node_detail.multiplexing", "Multiplexing")
    ∷ ("node_detail.handshake_mode", "Handshake Mode")
    ∷ ("node_detail.traffic_pattern", "Traffic Pattern")
    ∷ ("node_detail.profile", "Profile")
    ∷ ("node_detail.naive_port", "Naive Port")
    ∷ ("node_detail.assigned_users", "Assigned Users")
    ∷ (
      "node_detail.assigned_hint",
      "Expired or disabled users are still visible here so operational state stays legible.",
    )
    ∷ ("node_detail.user", "User")
    ∷ ("node_detail.expiration", "Expiration")
    ∷ ("node_detail.assignment", "Assignment")
    ∷ ("node_detail.no_assigned_users", "No assigned users")
    ∷ ("node_detail.sync_history", "Recent Sync History")
    ∷ (
      "node_detail.sync_history_hint",
      "Request payloads stay hidden; response details are sanitized for secrets.",
    )
    ∷ ("node_detail.sessions", "Active and Recent Sessions")
    ∷ (
      "node_detail.sessions_hint",
      "Read-only telemetry from VetkaNodeAgent. This panel never changes desired state or triggers sync.",
    )
    ∷ ("node_detail.changed", "Changed")
    ∷ ("node_detail.no_sync_history", "No sync history yet")
    ∷ ("node_detail.danger", "Danger Zone")
    ∷ (
      "node_detail.danger_hint_text",
      "hides this node from new subscriptions. Cached client configs may continue working until refresh.",
    )
    ∷ ("node_detail.delete", "Delete Node")
    ∷ ("node_detail.delete_confirm", "Delete this node?")
    ∷ []

unfoldable pub forms : List (String × String)
forms =
    ("node_edit.eyebrow", "Node Settings")
    ∷ ("node_edit.heading_prefix", "Edit")
    ∷ (
      "node_edit.intro",
      "Keep connection metadata current without exposing the stored node secret.",
    )
    ∷ ("node_edit.back", "Back to Detail")
    ∷ ("node_edit.validate_status", "Validate /status")
    ∷ ("node_edit.identity", "Identity")
    ∷ ("node_edit.identity_hint", "Current setup state:")
    ∷ ("node_edit.name", "Name")
    ∷ ("node_edit.leave_secret", "Leave empty to keep current")
    ∷ (
      "node_edit.disable_hint",
      "Disabling a node hides it from newly generated subscriptions. Existing cached client configs may keep working until refresh.",
    )
    ∷ ("node_edit.save", "Save Node")
    ∷ ("node_edit.danger_hint", "This is not an emergency revoke surface.")
    ∷ ("node_created.eyebrow", "One-Time Secret")
    ∷ ("node_created.heading", "Node Created")
    ∷ (
      "node_created.intro",
      "Store the secret now. After this screen the panel only shows a masked value.",
    )
    ∷ ("node_created.open_detail", "Open Node Detail")
    ∷ ("node_created.back_nodes", "Back to Nodes")
    ∷ ("node_created.secret_handling", "Secret Handling")
    ∷ (
      "node_created.secret_hint",
      "The following values are shown once. They are not stored in localStorage and should not be pasted into third-party tools.",
    )
    ∷ ("node_created.environment_block", "Environment Block")
    ∷ ("node_created.install_command", "Install Command")
    ∷ ("node_created.copy_all", "Copy All")
    ∷ ("node_created.copy_install", "Copy Install")
    ∷ (
      "node_created.ufw_hint",
      "Production UFW reminder: allow the port only from the Backend Panel IP.",
    )
    ∷ ("login.eyebrow", "Protected Access")
    ∷ ("login.username", "Username")
    ∷ ("login.password", "Password")
    ∷ ("login.show", "Show")
    ∷ ("login.hide", "Hide")
    ∷ ("login.submit", "Log In")
    ∷ ("flash.login_invalid", "Invalid username or password")
    ∷ ("flash.operation_failed", "Operation failed. Check backend logs.")
    ∷ ("flash.internal_server_error", "Internal server error")
    ∷ ("reconcile.users_found", "Users found")
    ∷ ("reconcile.nodes_affected", "nodes affected")
    ∷ ("reconcile.successful_syncs", "successful syncs")
    ∷ ("reconcile.users_processed", "users processed")
    ∷ ("reconcile.errors", "errors")
    ∷ ("subscription.unlimited", "Subscription: unlimited")
    ∷ ("subscription.expired_at", "Subscription: expired at")
    ∷ ("subscription.expires_at", "Expires at:")
    ∷ ("flash.status_ok", "Status OK")
    ∷ ("flash.sync_ok", "Sync OK")
    ∷ ("status.current_version", "Current version")
    ∷ ("status.applied_version", "Applied version")
    ∷ ("status.users_cached", "Users cached")
    ∷ ("status.config_version", "Config version")
    ∷ ("status.http_status", "HTTP status")
    ∷ []

unfoldable pub english : List (String × String)
unfolding shell lists users nodes forms
english = shell ++ (lists ++ (users ++ (nodes ++ forms)))
