-- ===== src/Views/Errors/Line.antt =====
-- What the flash message of an error in internal/http/handlers/handlers.go is made of.
use mathlib.Core.List
use Prim.Native.Char.{Char, code}
use Prim.Native.String.append
use Prim.Native.String.{◌++◌}
use vetka_backend_panel.Prelude.{
  ℕ, zero, suc, ◌-◌, ◌≤◌, String, Bool, true, false, not, ◌&&◌, ◌||◌, ◌≡◌, ◌≢◌, ◌⊎◌, refl, sym, ap,
  ◌∙◌, Option, List, [], ◌∷◌, map, ◌==◌, arith, All, All-append, if◌then◌else◌, ltb, leb, nat_eq,
  length, take, Bool-cases, inl, inr,
}
use vetka_backend_panel.Prelude.Text.{runes, of_runes, join, is_space, trim_space}
use vetka_backend_panel.I18n
use vetka_backend_panel.Views.Json.{Value}
use vetka_backend_panel.Views.Masks
use vetka_backend_panel.Views.Masks.Shown.{truncate_runes-length}
use vetka_backend_panel.Views.Errors

-- No control character.
abbrev pub IsPlain : Char → Type 0
IsPlain c = (ltb (code c) 32 || nat_eq (code c) 127) ≡ false

abbrev pub Plain : List Char → Type 0
Plain cs = All IsPlain cs

unfoldable all_plain : List Char → Bool
all_plain [] = true
all_plain (c ∷ cs) = not (ltb (code c) 32 || nat_eq (code c) 127) && all_plain cs

Plain-of_all : (cs : List Char) → all_plain cs ≡ true → Plain cs
unfolding all_plain
Plain-of_all [] h = tt
Plain-of_all (c ∷ cs) h = (ground (arith, h), Plain-of_all cs (ground (arith, h)))

map_controls-Plain : (cs : List Char) → Plain (Errors.map_controls cs)
unfolding Errors.map_controls
map_controls-Plain [] = tt
map_controls-Plain (c ∷ s) =
    by_test (nat_eq (code c) 13 || nat_eq (code c) 10 || nat_eq (code c) 9) (Bool-cases _)
      (map_controls-Plain s)
  where
    by_test :
        (b : Bool)
        → ((ltb (code c) 32 || nat_eq (code c) 127) ≡ true) ⊎ IsPlain c
        → Plain (Errors.map_controls s)
        → Plain (
            if b
            then " " ∷ Errors.map_controls s
            else if ltb (code c) 32 || nat_eq (code c) 127
            then Errors.map_controls s
            else c ∷ Errors.map_controls s)
    by_test true o h = (refl, h)
    by_test false (inl e) h = rw (e) h
    by_test false (inr e) h = rw (e) (e, h)

true-not_false : true ≡ false → ⊥
true-not_false e = absurd (cc)

push_word-Plain :
    (w : List Char) (ws : List (List Char))
    → Plain w
    → All Plain ws
    → All Plain (Errors.push_word w ws)
push_word-Plain [] ws p q = q
push_word-Plain (c ∷ w) ws p q = (p, q)

words-Plain :
    (cs : List Char) → Plain cs → Plain (Errors.words cs).0 × All Plain (Errors.words cs).1
unfolding Errors.words
words-Plain [] h = (tt, tt)
words-Plain (c ∷ s) h = by_test (is_space (code c)) (words-Plain s h.1)
  where
    by_test :
        (b : Bool)
        → Plain (Errors.words s).0 × All Plain (Errors.words s).1
        → (let r : List Char × List (List Char) =
              (if b
                then ([], Errors.push_word (Errors.words s).0 (Errors.words s).1)
                else (c ∷ (Errors.words s).0, (Errors.words s).1)) in
            Plain r.0 × All Plain r.1)
    by_test true k = (tt, push_word-Plain (Errors.words s).0 (Errors.words s).1 k.0 k.1)
    by_test false k = ((h.0, k.0), k.1)

runes-of_runes : (cs : List Char) → runes (of_runes cs) ≡ cs
unfolding runes of_runes
runes-of_runes [] = refl
runes-of_runes (c ∷ cs) = ap (λ s. c ∷ s) (runes-of_runes cs)

runes-append : (s t : String) → runes (s ++ t) ≡ List.◌++◌ (runes s) (runes t)
unfolding runes
runes-append String.[] t = ap runes (append.nil t)
runes-append (String.◌∷◌ c s) t = ap runes (append.cons c s t) ∙ ap (λ r. c ∷ r) (runes-append s t)

join-Plain : (ws : List (List Char)) → All Plain ws → Plain (runes (join (map of_runes ws) " "))
unfolding join runes
join-Plain [] h = tt
join-Plain (w ∷ []) h = rw (runes-of_runes w) h.0
join-Plain (w ∷ v ∷ ws) h =
    rw
      (
        runes-append (of_runes w) (" " ++ join (map of_runes (v ∷ ws)) " "),
        runes-of_runes w,
        runes-append " " (join (map of_runes (v ∷ ws)) " "),
      )
      (All-append IsPlain w _ h.0 (refl, join-Plain (v ∷ ws) h.1))

take-Plain : (n : ℕ) (cs : List Char) → Plain cs → Plain (take n cs)
take-Plain zero cs h = tt
take-Plain (suc n) [] h = tt
take-Plain (suc n) (c ∷ cs) h = (h.0, take-Plain n cs h.1)

truncate-Plain : (cs : List Char) (n : ℕ) → Plain cs → Plain (Masks.truncate_runes cs n)
unfolding Masks.truncate_runes runes
truncate-Plain cs n h = by_test (leb (length cs) n || leb n 3)
  where
    by_test : (b : Bool) → Plain (if b then cs else List.◌++◌ (take (n - 1) cs) Masks.dots)
    by_test true = h
    by_test false =
        All-append IsPlain (take (n - 1) cs) Masks.dots (take-Plain (n - 1) cs h)
          (refl, (refl, (refl, tt)))

truncate-short : (cs : List Char) → length (Masks.truncate_runes cs 300) ≤ 302
truncate-short cs = ground (arith, truncate_runes-length cs 300)

-- A line of at most 302 characters, none of them a control character, and not empty.
abbrev pub IsLine : String → Type 0
IsLine t = Plain (runes t) × (length (runes t) ≤ 302) × (t ≢ "")

fields-Plain : (cs : List Char) → Plain (runes (join (Errors.fields (Errors.map_controls cs)) " "))
unfolding Errors.fields
fields-Plain cs =
    let (w, ws) = words-Plain (Errors.map_controls cs) (map_controls-Plain cs) in
    join-Plain _ (push_word-Plain _ _ w ws)

failed_text :
    (locale : String)
    → (I18n.translate locale "flash.operation_failed" ≡ "Operation failed. Check backend logs.")
      ⊎ (I18n.translate locale "flash.operation_failed"
          ≡ "Операция не выполнена. Проверьте журналы Backend.")
unfolding I18n.translate I18n.text_of I18n.catalog I18n.Russian.russian I18n.English.english
failed_text locale = by_test (I18n.normalize_locale locale == "en") refl
  where
    by_test :
        (b : Bool)
        → (I18n.normalize_locale locale == "en") ≡ b
        → (I18n.translate locale "flash.operation_failed" ≡ "Operation failed. Check backend logs.")
          ⊎ (I18n.translate locale "flash.operation_failed"
              ≡ "Операция не выполнена. Проверьте журналы Backend.")
    by_test true e = inl (rw (e) refl)
    by_test false e = inr (rw (e) refl)

failed-IsLine : (locale : String) → IsLine (I18n.translate locale "flash.operation_failed")
unfolding runes all_plain
failed-IsLine locale = by_text (I18n.translate locale "flash.operation_failed") (failed_text locale)
  where
    by_text :
        (t : String)
        → (t ≡ "Operation failed. Check backend logs.")
          ⊎ (t ≡ "Операция не выполнена. Проверьте журналы Backend.")
        → IsLine t
    by_text t (inl e) = rw (e) (
      Plain-of_all (runes "Operation failed. Check backend logs.") refl,
      omega arith,
      λ k. absurd (cc),
    )
    by_text t (inr e) = rw (e) (
      Plain-of_all (runes "Операция не выполнена. Проверьте журналы Backend.") refl,
      omega arith,
      λ k. absurd (cc),
    )

-- A line that is not trimmed to nothing is not empty.
shown-IsLine :
    (decode : String → Option Value) (encode : Value → String) (locale line : String)
    → Plain (runes line)
    → length (runes line) ≤ 302
    → IsLine (Errors.shown_error decode encode locale line)
unfolding Errors.shown_error trim_space
shown-IsLine decode encode locale line p q =
    by_test (trim_space line == "" || line == "***" || line == Errors.redacted_error) refl
  where
    filled :
        (trim_space line == "" || line == "***" || line == Errors.redacted_error) ≡ false
        → line ≢ ""
    filled e k =
        true-not_false
          (sym (ap (λ l. trim_space l == "" || l == "***" || l == Errors.redacted_error) k) ∙ e)

    by_test :
        (b : Bool)
        → (trim_space line == "" || line == "***" || line == Errors.redacted_error) ≡ b
        → IsLine (if b then I18n.translate locale "flash.operation_failed" else line)
    by_test true e = failed-IsLine locale
    by_test false e = (p, q, filled e)

-- Whatever the error is, its flash message is one line of at most 302 characters, none of them a control
-- character, and not empty.
pub safe_ui_error_text-IsLine :
    (decode : String → Option Value) (encode : Value → String) (locale value : String)
    → IsLine (Errors.safe_ui_error_text decode encode locale value)
unfolding Errors.safe_ui_error_text Masks.truncate_text
safe_ui_error_text-IsLine decode encode locale value =
    by_test (Errors.safe_operational_error decode encode value)
  where
    cut-IsLine :
        (e : String)
        → IsLine (Errors.shown_error decode encode locale (Errors.one_line decode encode e))
    cut-IsLine e =
        let text = runes (join (Errors.fields (Errors.map_controls (runes e))) " ") in
        shown-IsLine decode encode locale (of_runes (Masks.truncate_runes text 300))
          (rw (runes-of_runes (Masks.truncate_runes text 300))
            (truncate-Plain text 300 (fields-Plain (runes e))))
          (rw (runes-of_runes (Masks.truncate_runes text 300)) (truncate-short text))

    by_test :
        (e : String)
        → IsLine (
            if e == ""
            then I18n.translate locale "flash.operation_failed"
            else Errors.shown_error decode encode locale (Errors.one_line decode encode e))
    by_test e = elim (Bool-cases (e == "")) [
      | inl q ↦ rw (q) (failed-IsLine locale)
      | inr q ↦ rw (q) (cut-IsLine e)
    ]
