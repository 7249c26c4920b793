-- ===== src/I18n/Complete.antt =====
-- The two catalogues of internal/http/handlers/i18n.go have the same keys, and no text is missing.
use vetka_backend_panel.Prelude.{
  String, Bool, true, false, not, ◌&&◌, ◌||◌, ◌≡◌, ◌≢◌, refl, sym, ap, ◌∙◌, List, [], ◌∷◌, ◌==◌,
  arith, eq_iff, if◌then◌else◌,
}
use vetka_backend_panel.I18n
use vetka_backend_panel.I18n.Russian.{russian}
use vetka_backend_panel.I18n.English.{english}

unfoldable pub has_text : String → List (String × String) → Bool
has_text key [] = false
has_text key (e ∷ es) = e.0 == key || has_text key es

-- Each key of one catalogue has a text in the other.
unfoldable covers : List (String × String) → List (String × String) → Bool
unfolding I18n.text_of
covers [] ys = true
covers (e ∷ xs) ys = not (I18n.text_of e.0 ys == "") && covers xs ys

covers-has_text :
    (key : String) (xs ys : List (String × String))
    → covers xs ys ≡ true
    → has_text key xs ≡ true
    → (I18n.text_of key ys == "") ≡ false
unfolding covers has_text
covers-has_text key [] ys c h = cc
covers-has_text key (e ∷ xs) ys c h =
    choose (e.0 == key) refl (ground (arith, c)) (ground (arith, c)) h (covers-has_text key xs ys)
  where
    choose :
        (b : Bool)
        → (e.0 == key) ≡ b
        → (I18n.text_of e.0 ys == "") ≡ false
        → covers xs ys ≡ true
        → (b || has_text key xs) ≡ true
        → (covers xs ys ≡ true → has_text key xs ≡ true → (I18n.text_of key ys == "") ≡ false)
        → (I18n.text_of key ys == "") ≡ false
    choose true q f c h ih = ap (λ k. I18n.text_of k ys == "") (sym ((eq_iff e.0 key).0 q)) ∙ f
    choose false q f c h ih = ih c h

russian-covers : (covers russian english ≡ true) × (covers russian russian ≡ true)
unfolding covers russian english
russian-covers = (refl, refl)

english-covers : (covers english english ≡ true) × (covers english russian ≡ true)
unfolding covers russian english
english-covers = (refl, refl)

covered :
    (key : String) (ys : List (String × String))
    → covers russian ys ≡ true
    → covers english ys ≡ true
    → (has_text key russian || has_text key english) ≡ true
    → (I18n.text_of key ys == "") ≡ false
covered key ys r e h = choose (has_text key russian) refl h
  where
    choose :
        (b : Bool)
        → has_text key russian ≡ b
        → (b || has_text key english) ≡ true
        → (I18n.text_of key ys == "") ≡ false
    choose true q h = covers-has_text key russian ys r q
    choose false q h = covers-has_text key english ys e h

catalog_covered :
    (b : Bool) (key : String)
    → (has_text key russian || has_text key english) ≡ true
    → (I18n.text_of key (if b then english else russian) == "") ≡ false
catalog_covered true key h = covered key english russian-covers.0 english-covers.0 h
catalog_covered false key h = covered key russian russian-covers.1 english-covers.1 h

shown : (own other : String) → (own == "") ≡ false → (if not (own == "") then own else other) ≡ own
shown own other h = rw h refl

not_empty : (t u : String) → t ≡ u → (u == "") ≡ false → t ≢ ""
not_empty t u e h k = ground (arith, h, eq_iff u "", e, k)

-- A key of either catalogue is shown as the text of the locale's own catalogue, which is not empty: the
-- fallback to Russian and the fallback to the key are not reached.
pub translate-own :
    (locale key : String)
    → (has_text key russian || has_text key english) ≡ true
    → (I18n.translate locale key ≡ I18n.text_of key (I18n.catalog (I18n.normalize_locale locale)))
      × (I18n.translate locale key ≢ "")
unfolding I18n.translate I18n.catalog
translate-own locale key h =
    let own = catalog_covered (I18n.normalize_locale locale == "en") key h in
    let e =
      shown _ (if not (I18n.text_of key russian == "") then I18n.text_of key russian else key)
        own in
    (e, not_empty (I18n.translate locale key) _ e own)
