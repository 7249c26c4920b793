-- ===== src/Subscriptions/Slugs.antt =====
-- The tag of an outbound of internal/subscriptions/subscriptions.go.
use Prim.Native.Char.{Char, code}
use Prim.Native.String.{String, ◌++◌}
use vetka_backend_panel.Prelude.{
  Bool, true, false, not, ◌&&◌, ◌≡◌, refl, ◌==◌, arith, if◌then◌else◌,
}
use vetka_backend_panel.Prelude.Text.{to_char, to_lower, trim_left, trim_right}
use vetka_backend_panel.Nodes.Repository.{default_to}
use vetka_backend_panel.Subscriptions.Models.{AccessWithNode}
use vetka_backend_panel.Subscriptions.Fields.{is_slug_char, is_dash, slug, tag_source, outbound_tag}

-- Letters a to z, digits and single dashes; with `true`, the first is no dash.
abbrev pub is_slug : Bool → String → Bool
is_slug after_dash String.[] = true
is_slug after_dash (String.◌∷◌ c s) =
    if is_slug_char (code c)
    then is_slug false s
    else is_dash (code c) && not after_dash && is_slug true s

abbrev pub ends_in_dash : String → Bool
ends_in_dash String.[] = false
ends_in_dash (String.◌∷◌ c s) = if s == "" then is_dash (code c) else ends_in_dash s

slug-is_slug : (b : Bool) (s : String) → is_slug b (slug b s) ≡ true
unfolding slug to_char
slug-is_slug b String.[] = refl
slug-is_slug b (String.◌∷◌ c s) = ground (arith, slug-is_slug false s, slug-is_slug true s)

trim_left-is_slug :
    (b : Bool) (s : String) → is_slug b s ≡ true → is_slug true (trim_left is_dash s) ≡ true
unfolding trim_left
trim_left-is_slug b String.[] h = refl
trim_left-is_slug b (String.◌∷◌ c s) h = ground (arith, h, trim_left-is_slug true s)

is_slug-if : (q b : Bool) (x : String) → is_slug b x ≡ true → is_slug b (if q then "" else x) ≡ true
is_slug-if true b x h = refl
is_slug-if false b x h = h

is_slug-cons :
    (b : Bool) (c : Char) (s t : String)
    → is_slug b (String.◌∷◌ c s) ≡ true
    → (is_slug false s ≡ true → is_slug false t ≡ true)
    → (is_slug true s ≡ true → is_slug true t ≡ true)
    → is_slug b (String.◌∷◌ c t) ≡ true
is_slug-cons b c s t h plain dashed = ground (arith, h, plain, dashed)

trim_right-is_slug :
    (b : Bool) (s : String) → is_slug b s ≡ true → is_slug b (trim_right is_dash s) ≡ true
unfolding trim_right
trim_right-is_slug b String.[] h = refl
trim_right-is_slug b (String.◌∷◌ c s) h =
    is_slug-if (is_dash (code c) && trim_right is_dash s == "") b
      (String.◌∷◌ c (trim_right is_dash s))
      (is_slug-cons b c s (trim_right is_dash s) h (trim_right-is_slug false s)
        (trim_right-is_slug true s))

ends-if :
    (q : Bool) (c : Char) (t : String)
    → q ≡ (is_dash (code c) && t == "")
    → ends_in_dash t ≡ false
    → ends_in_dash (if q then "" else String.◌∷◌ c t) ≡ false
ends-if true c t e h = refl
ends-if false c t e h = ground (arith, e, h)

trim_right-ends : (s : String) → ends_in_dash (trim_right is_dash s) ≡ false
unfolding trim_right
trim_right-ends String.[] = refl
trim_right-ends (String.◌∷◌ c s) =
    ends-if (is_dash (code c) && trim_right is_dash s == "") c (trim_right is_dash s) refl
      (trim_right-ends s)

-- The last part of a tag.
pub record IsTag (v : String) : Type 0 where
  pub slugged : is_slug true v ≡ true
  pub ends : ends_in_dash v ≡ false
  pub filled : (v == "") ≡ false

default-IsTag :
    (q : Bool) (v : String)
    → (v == "") ≡ q
    → is_slug true v ≡ true
    → ends_in_dash v ≡ false
    → IsTag (if q then "node" else v)
default-IsTag true v e h k = record { slugged = refl; ends = refl; filled = refl }
default-IsTag false v e h k = record { slugged = h; ends = k; filled = e }

-- The tag of an outbound is "node-", the protocol of the node, a dash, and a text that is not empty, has
-- only the letters a to z, digits and single dashes, and neither begins nor ends in a dash.
pub outbound_tag-IsTag :
    (a : AccessWithNode)
    → (v : String) × (outbound_tag a ≡ "node-" ++ a.node_protocol_type ++ "-" ++ v) × IsTag v
unfolding outbound_tag
outbound_tag-IsTag a =
    let source = slug false (to_lower (tag_source a)) in
    let trimmed = trim_left is_dash source in
    (
      default_to "node" (trim_right is_dash trimmed),
      refl,
      default-IsTag (trim_right is_dash trimmed == "") (trim_right is_dash trimmed) refl
          (trim_right-is_slug true trimmed
            (trim_left-is_slug false source (slug-is_slug false (to_lower (tag_source a)))))
          (trim_right-ends trimmed),
    )
