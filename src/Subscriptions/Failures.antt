-- ===== src/Subscriptions/Failures.antt =====
-- When a subscription of internal/subscriptions/subscriptions.go fails.
use Prim.Native.String.{String}
use vetka_backend_panel.Prelude.{
  ℕ, Bool, true, false, not, ◌&&◌, ◌||◌, ◌≡◌, refl, ◌∙◌, sym, ap, Option, List, [], ◌∷◌, ◌==◌,
  arith, inl, inr, Bool-cases,
}
use vetka_backend_panel.Prelude.Effects.{Result, ok, err, is_err, gets, raise}
use vetka_backend_panel.Users.Models.{User}
use vetka_backend_panel.Users.Repository.{is_expired}
use vetka_backend_panel.Subscriptions.Models.{AccessWithNode, Body}
use vetka_backend_panel.Subscriptions.Texts.{
  has_protocol, hiddify_lines, mieru_lines, naive_lines, build_hiddify_all, build_raw_mieru,
  build_raw_naive,
}
use vetka_backend_panel.Subscriptions.Service
use vetka_backend_panel.Subscriptions.Service.{Settings, SubscriptionUserRepository}
use vetka_backend_panel.Subscriptions.Formats.{formats, OneOf, normalize_format_lem}
use vetka_backend_panel.World.Calm.{bind-ok, if-true}

abbrev pub some_pass : (AccessWithNode → Bool) → List AccessWithNode → Bool
some_pass p [] = false
some_pass p (a ∷ rows) = p a || some_pass p rows

-- The format asks for nodes of a protocol, and no assignment is to one.
abbrev pub lacks_nodes : String → List AccessWithNode → Bool
lacks_nodes f rows =
    (f == "hiddify" && not (some_pass (λ a. has_protocol "mieru" a || has_protocol "naive" a) rows))
    || (f == "mierus" && not (some_pass (has_protocol "mieru") rows))
    || (f == "naive" && not (some_pass (has_protocol "naive") rows))

is_err-text_body : (r : Result String) → is_err (Service.text_body r) ≡ is_err r
is_err-text_body (ok s) = refl
is_err-text_body (err e) = refl

or_false : (b : Bool) → (b || false) ≡ b
or_false false = refl
or_false true = refl

err-not_ok :
    {S A : Type 0} (e : String) (a : A) (s t : S) → ◌≡◌ {A = Result A × S} (err e, s) (ok a, t) → ⊥
err-not_ok e a s t h = let k : true ≡ false = ap (λ p. is_err p.0) h in absurd (cc)

module _ (parse : String → Option (String × String)) where
  hiddify-is_err :
      (rows : List AccessWithNode) (title : String)
      → is_err (build_hiddify_all parse rows title)
        ≡ not (some_pass (λ a. has_protocol "mieru" a || has_protocol "naive" a) rows)
  unfolding build_hiddify_all hiddify_lines
  hiddify-is_err [] title = refl
  hiddify-is_err (a ∷ rows) title = ground (arith, hiddify-is_err rows title)

  mieru-is_err :
      (rows : List AccessWithNode)
      → is_err (build_raw_mieru parse rows) ≡ not (some_pass (has_protocol "mieru") rows)
  unfolding build_raw_mieru mieru_lines
  mieru-is_err [] = refl
  mieru-is_err (a ∷ rows) = ground (arith, mieru-is_err rows)

  naive-is_err :
      (rows : List AccessWithNode)
      → is_err (build_raw_naive parse rows) ≡ not (some_pass (has_protocol "naive") rows)
  unfolding build_raw_naive naive_lines
  naive-is_err [] = refl
  naive-is_err (a ∷ rows) = ground (arith, naive-is_err rows)

  build_as-is_err :
      (f : String) (rows : List AccessWithNode) (st : Settings)
      → OneOf formats f
      → is_err (Service.build_as parse f rows st) ≡ lacks_nodes f rows
  unfolding Service.build_as
  build_as-is_err f rows st (inl e) = rw e refl
  build_as-is_err f rows st (inr (inl e)) = rw e (
      is_err-text_body _
      ∙ hiddify-is_err rows st.profile_title
      ∙ sym (or_false _)
      ∙ sym (or_false _))
  build_as-is_err f rows st (inr (inr (inl e))) = rw e refl
  build_as-is_err f rows st (inr (inr (inr (inl e)))) = rw e refl
  build_as-is_err f rows st (inr (inr (inr (inr (inl e))))) =
      rw e (is_err-text_body _ ∙ mieru-is_err rows ∙ sym (or_false _))
  build_as-is_err f rows st (inr (inr (inr (inr (inr (inl e)))))) =
      rw e (is_err-text_body _ ∙ naive-is_err rows)
  build_as-is_err f rows st (inr (inr (inr (inr (inr (inr x)))))) = absurd x

  -- A subscription fails exactly where the normalised format is "hiddify", "mierus" or "naive" and none of
  -- the enabled assignments is to a node of a protocol that the format supports.
  pub build_subscription-is_err :
      (rows : List AccessWithNode) (format : String) (st : Settings)
      → is_err (Service.build_subscription parse rows format st)
        ≡ lacks_nodes (Service.normalize_format format) (Service.active_assignments rows)
  unfolding Service.build_subscription
  build_subscription-is_err rows format st =
      build_as-is_err (Service.normalize_format format) (Service.active_assignments rows) st
        (normalize_format_lem format).0

  module _ {S : Type 0} (repo : SubscriptionUserRepository S) (clock : S → ℕ) (st : Settings) where
    refused :
        (user : User) (format : String) (t : S)
        → (not user.enabled || is_expired (clock t) user.expires_at) ≡ true
        → Service.build_for parse repo clock st user format (clock t) t
          ≡ (err Service.subscription_disabled, t)
    unfolding Service.build_for raise
    refused user format t h = if-true _ _ _ t h

    build_by_token-read :
        (token format : String) (user : User) (s t : S)
        → repo.get_by_token token s ≡ (ok user, t)
        → Service.build_by_token parse repo clock st token format s
          ≡ Service.build_for parse repo clock st user format (clock t) t
    unfolding Service.build_by_token gets
    build_by_token-read token format user s t read =
        bind-ok _ _ s t user read ∙ bind-ok _ _ t t (clock t) refl

    -- If the user of a token is read and the subscription succeeds, the user is enabled and has not
    -- expired at the time after the read.
    pub build_by_token-active :
        (token format : String) (user : User) (body : Body × String) (s t end : S)
        → repo.get_by_token token s ≡ (ok user, t)
        → Service.build_by_token parse repo clock st token format s ≡ (ok body, end)
        → (user.enabled ≡ true) × (is_expired (clock t) user.expires_at ≡ false)
    build_by_token-active token format user body s t end read success =
        elim (Bool-cases (not user.enabled || is_expired (clock t) user.expires_at)) [
          | inl h ↦ absurd (
              err-not_ok _ body t end (
                sym (refused user format t h)
                ∙ sym (build_by_token-read token format user s t read)
                ∙ success))
          | inr h ↦ (ground (arith, h), ground (arith, h))
        ]
