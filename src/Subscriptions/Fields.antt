-- ===== src/Subscriptions/Fields.antt =====
-- internal/subscriptions/subscriptions.go: the tag, the server, the port and the settings of an
-- assignment. The parser of `net/url` is a parameter: the host name and the host of a text that it takes.
use Prim.Native.Char.{code}
use Prim.Native.String.{String, ◌++◌, len, slice}
use vetka_backend_panel.Prelude.{
  ℕ, zero, suc, ◌≡◌, refl, ◌+◌, ◌-◌, ◌*◌, Bool, true, false, not, ◌&&◌, ◌||◌, Option, none, some,
  List, [], ◌∷◌, ◌==◌, if◌then◌else◌, leb, nat_eq,
}
use vetka_backend_panel.Prelude.Int.{ℤ, pos, negsuc, leb_ℤ, eq_ℤ}
use vetka_backend_panel.Prelude.Text.{
  to_char, to_lower, trim_left, trim_right, trim_space, trim_prefix, itoa,
}
use vetka_backend_panel.Nodes.Models.{ProtocolSettings}
use vetka_backend_panel.Nodes.Repository.{default_to, default_ports}
use vetka_backend_panel.Subscriptions.Models.{AccessWithNode}
use vetka_backend_panel.Subscriptions.Url.{before_first, before_last, has_char}

abbrev pub is_slug_char : ℕ → Bool
is_slug_char r = (leb b'a' r && leb r b'z') || (leb b'0' r && leb r b'9')

-- The loop over the characters of `outboundTag`, with `prevDash`.
unfoldable pub slug : Bool → String → String
unfolding to_char
slug prev_dash String.[] = ""
slug prev_dash (String.◌∷◌ c s) =
    let kept = slug false s in
    let dashed = slug true s in
    if is_slug_char (code c)
    then String.◌∷◌ c kept
    else if not prev_dash
    then String.◌∷◌ (to_char b'-') dashed
    else dashed

abbrev pub is_dash : ℕ → Bool
is_dash n = nat_eq n b'-'

abbrev pub tag_source : AccessWithNode → String
tag_source a = default_to a.node_name (default_to a.access.node_id a.agent_node_id)

unfoldable pub outbound_tag : AccessWithNode → String
unfolding slug to_lower trim_left trim_right
outbound_tag a =
    "node-"
    ++ a.node_protocol_type
    ++ "-"
    ++ default_to "node"
        (trim_right is_dash (trim_left is_dash (slug false (to_lower (tag_source a)))))

-- `path.Clean("/" + s)[1:]` of a text without a slash.
abbrev pub clean_segment : String → String
clean_segment s = if s == "." || s == ".." then "" else s

abbrev pub or_whole : String → Option String → String
or_whole s none = s
or_whole s (some t) = t

-- The host of `net.SplitHostPort`, from what is before the last colon: between brackets right before that
-- colon, or a text with no other colon; a bracket elsewhere is an error.
unfoldable pub bracket_host : String → String → String → Option String
unfolding before_first
bracket_host before s t = elim (before_first b']' s) [
  | none ↦ none
  | some b ↦
      if nat_eq (len b + 1) (len before)
        && not (has_char b'[' t)
        && not (has_char b']' (slice s (len b + 1) (len s)))
      then some (slice b 1 (len b))
      else none
]

abbrev pub plain_host : String → String → Option String
plain_host before s =
    if has_char b':' before || has_char b'[' s || has_char b']' s then none else some before

unfoldable pub host_before : String → String → Option String
unfolding bracket_host
host_before before String.[] = none
host_before before (String.◌∷◌ c t) =
    if nat_eq (code c) b'['
    then bracket_host before (String.◌∷◌ c t) t
    else plain_host before (String.◌∷◌ c t)

unfoldable pub split_host : String → Option String
unfolding before_last host_before
split_host s = elim (before_last b':' s) [ none ↦ none | some before ↦ host_before before s ]

abbrev pub host_or : String → Option String → String
host_or s none = s
host_or s (some t) = if t == "" then s else t

unfoldable pub sanitize_host : String → String
unfolding trim_space trim_prefix before_first split_host
sanitize_host value =
    let trimmed = trim_prefix (trim_prefix (trim_space value) "http://") "https://" in
    let authority = or_whole trimmed (before_first b'/' trimmed) in
    clean_segment (host_or authority (split_host authority))

unfoldable pub digits_value : ℕ → String → Option ℕ
digits_value n String.[] = some n
digits_value n (String.◌∷◌ c s) =
    let value = digits_value (n * 10 + (code c - b'0')) s in
    if leb b'0' (code c) && leb (code c) b'9' then value else none

unfoldable pub unsigned : String → Option ℕ
unfolding digits_value
unsigned String.[] = none
unsigned (String.◌∷◌ c s) = digits_value 0 (String.◌∷◌ c s)

abbrev pub negated : ℕ → ℤ
negated zero = pos 0
negated (suc n) = negsuc n

abbrev pub positive : Option ℕ → Option ℤ
positive none = none
positive (some n) = if leb n 9223372036854775807 then some (pos n) else none

abbrev pub negative : Option ℕ → Option ℤ
negative none = none
negative (some n) = if leb n 9223372036854775808 then some (negated n) else none

-- `strconv.Atoi`
unfoldable pub atoi : String → Option ℤ
unfolding unsigned
atoi String.[] = none
atoi (String.◌∷◌ c s) =
    if nat_eq (code c) b'-'
    then negative (unsigned s)
    else if nat_eq (code c) b'+'
    then positive (unsigned s)
    else positive (unsigned (String.◌∷◌ c s))

abbrev pub port_or : Option ℤ → ℤ
port_or none = pos 2012
port_or (some port) = if leb_ℤ port (pos 0) then pos 2012 else port

unfoldable pub first_mieru_port : List String → ℤ
unfolding trim_space before_first atoi
first_mieru_port [] = pos 2012
first_mieru_port (p ∷ ps) =
    if trim_space p == ""
    then pos 2012
    else port_or (atoi (or_whole (trim_space p) (before_first b'-' (trim_space p))))

unfoldable pub default_string : String → String → String
unfolding trim_space
default_string value fallback = if trim_space value == "" then fallback else value

unfoldable pub protocol_settings_for_access : AccessWithNode → ProtocolSettings
unfolding default_ports
protocol_settings_for_access a =
    let s = a.node_protocol_settings in
    record {
      mieru = record s.mieru {
        ports = default_ports s.mieru.ports;
        protocol = default_to "TCP" s.mieru.protocol;
        mtu = if eq_ℤ s.mieru.mtu (pos 0) then pos 1400 else s.mieru.mtu;
        multiplexing = default_to "MULTIPLEXING_HIGH" s.mieru.multiplexing;
        handshake_mode = default_to "HANDSHAKE_NO_WAIT" s.mieru.handshake_mode;
        profile = default_to a.node_name s.mieru.profile;
      };
      naive_port = if eq_ℤ s.naive_port (pos 0) then pos 443 else s.naive_port;
    }

-- `strconv.Itoa`
abbrev pub itoa_ℤ : ℤ → String
itoa_ℤ (pos n) = itoa n
itoa_ℤ (negsuc n) = "-" ++ itoa (suc n)

-- `parse` is `url.Parse`, where it takes a text: the host name and the host of the URL.
module _ (parse : String → Option (String × String)) where
  abbrev pub parsed_host : String → Option (String × String) → String
  parsed_host value none = sanitize_host value
  parsed_host value (some url) = sanitize_host (if url.0 == "" then url.1 else url.0)

  unfoldable pub host_from_url : String → String
  unfolding trim_space sanitize_host
  host_from_url value = if trim_space value == "" then "" else parsed_host value (parse value)

  unfoldable pub node_server : AccessWithNode → String
  unfolding host_from_url sanitize_host
  node_server a =
      if not (sanitize_host a.node_domain == "")
      then sanitize_host a.node_domain
      else default_to "localhost" (host_from_url a.node_api_url)

first_mieru_port_range : first_mieru_port (" 2012-2022 " ∷ []) ≡ pos 2012
unfolding first_mieru_port
first_mieru_port_range = refl

sanitize_host_port : sanitize_host " https://[::1]:8443/path" ≡ "::1"
unfolding sanitize_host
sanitize_host_port = refl

outbound_slug : slug false "de_berlin--01" ≡ "de-berlin-01"
unfolding slug
outbound_slug = refl
