-- ===== src/Views/Json/Redacted.antt =====
-- What `redactSecrets` of internal/http/handlers/view_helpers.go leaves of a JSON value.
use vetka_backend_panel.Prelude.{
  String, Bool, true, false, ◌≡◌, refl, ap, ◌↔◌, if◌then◌else◌, Bool-cases, inl, inr,
}
use vetka_backend_panel.Views.Json.{
  Value, null, boolean, number, text, array, object, Items, no_items, item, Entries, no_entries,
  entry, is_sensitive_json_key, redact_secrets, redact_items, redact_entries,
}

-- Below every sensitive key stands the mask, at every depth.
mutual
  pub data IsRedacted : Value → Type 0 where
    plain_null : IsRedacted null
    plain_boolean : (b : Bool) → IsRedacted (boolean b)
    plain_number : (n : String) → IsRedacted (number n)
    plain_text : (s : String) → IsRedacted (text s)
    all_items : {xs : Items} → AreRedacted xs → IsRedacted (array xs)
    all_entries : {es : Entries} → EntriesRedacted es → IsRedacted (object es)

  pub data AreRedacted : Items → Type 0 where
    none_left : AreRedacted no_items
    and_item : {v : Value} {xs : Items} → IsRedacted v → AreRedacted xs → AreRedacted (item v xs)

  pub data EntriesRedacted : Entries → Type 0 where
    no_more : EntriesRedacted no_entries
    masked :
        {k : String} {v : Value} {es : Entries}
        → is_sensitive_json_key k ≡ true
        → v ≡ text "***"
        → EntriesRedacted es
        → EntriesRedacted (entry k v es)
    kept :
        {k : String} {v : Value} {es : Entries}
        → is_sensitive_json_key k ≡ false
        → IsRedacted v
        → EntriesRedacted es
        → EntriesRedacted (entry k v es)

redact_entry-EntriesRedacted :
    (k : String) (v : Value) (es : Entries)
    → IsRedacted v
    → EntriesRedacted es
    → EntriesRedacted (entry k (if is_sensitive_json_key k then text "***" else v) es)
redact_entry-EntriesRedacted k v es h r = elim (Bool-cases (is_sensitive_json_key k)) [
  | inl e ↦ masked e (rw e refl) r
  | inr e ↦ kept e (rw e h) r
]

mutual
  unfolding redact_secrets

  redact-IsRedacted : (v : Value) → IsRedacted (redact_secrets v)
  redact-IsRedacted null = plain_null
  redact-IsRedacted (boolean b) = plain_boolean b
  redact-IsRedacted (number n) = plain_number n
  redact-IsRedacted (text s) = plain_text s
  redact-IsRedacted (array xs) = all_items (redact_items-AreRedacted xs)
  redact-IsRedacted (object es) = all_entries (redact_entries-EntriesRedacted es)

  redact_items-AreRedacted : (xs : Items) → AreRedacted (redact_items xs)
  redact_items-AreRedacted no_items = none_left
  redact_items-AreRedacted (item v xs) =
      and_item (redact-IsRedacted v) (redact_items-AreRedacted xs)

  redact_entries-EntriesRedacted : (es : Entries) → EntriesRedacted (redact_entries es)
  redact_entries-EntriesRedacted no_entries = no_more
  redact_entries-EntriesRedacted (entry k v es) =
      redact_entry-EntriesRedacted k (redact_secrets v) (redact_entries es) (redact-IsRedacted v)
        (redact_entries-EntriesRedacted es)

mutual
  unfolding redact_secrets

  redact_same : {v : Value} → IsRedacted v → redact_secrets v ≡ v
  redact_same plain_null = refl
  redact_same (plain_boolean b) = refl
  redact_same (plain_number n) = refl
  redact_same (plain_text s) = refl
  redact_same (all_items h) = ap array (redact_items_same h)
  redact_same (all_entries h) = ap object (redact_entries_same h)

  redact_items_same : {xs : Items} → AreRedacted xs → redact_items xs ≡ xs
  redact_items_same none_left = refl
  redact_items_same (and_item h r) = cc (redact_same h, redact_items_same r)

  redact_entries_same : {es : Entries} → EntriesRedacted es → redact_entries es ≡ es
  redact_entries_same no_more = refl
  redact_entries_same (masked e h r) = rw (e, h, redact_entries_same r) refl
  redact_entries_same (kept e h r) = rw (e, redact_same h, redact_entries_same r) refl

-- Redacting a JSON value gives one with the mask below every sensitive key, at every depth, and leaves
-- the values alone that are like that already.
pub redact_secrets-IsRedacted :
    (v : Value) → IsRedacted (redact_secrets v) × (IsRedacted v ↔ (redact_secrets v ≡ v))
redact_secrets-IsRedacted v =
    (redact-IsRedacted v, (redact_same, λ e. rw (← e) (redact-IsRedacted v)))
