-- ===== src/Subscriptions/Tags.antt =====
-- The tags of the sing-box document of internal/subscriptions/subscriptions.go.
use vetka_backend_panel.Prelude.{
  String, Bool, true, false, ◌||◌, ◌≡◌, refl, Option, List, [], ◌∷◌, ◌++◌, map, ◌==◌, arith,
  eq_refl, All, All-append,
}
use vetka_backend_panel.Subscriptions.Models.{AccessWithNode, SingboxOutbound, SingboxConfig}
use vetka_backend_panel.Subscriptions.Fields.{outbound_tag}
use vetka_backend_panel.Subscriptions.Bodies.{
  fixed_outbounds, singbox_outbounds, build_singbox_json, or_direct,
}
use vetka_backend_panel.Subscriptions.Texts.{has_protocol}

abbrev pub is_among : List String → String → Bool
is_among [] t = false
is_among (x ∷ xs) t = x == t || is_among xs t

abbrev pub IsSupported : AccessWithNode → Type 0
IsSupported a = (has_protocol "naive" a || has_protocol "mieru" a) ≡ true

abbrev pub outbound_tags : SingboxConfig → List String
outbound_tags c = map (λ o. o.tag) c.outbounds

abbrev selected : List SingboxOutbound → List String
selected [] = []
selected (o ∷ os) = o.outbounds ++ selected os

-- Every outbound and every DNS server that the document names is one of its own.
pub record IsClosed (c : SingboxConfig) : Type 0 where
  pub detours : All (λ d. is_among (outbound_tags c) d.detour ≡ true) c.dns_servers
  pub servers : All (λ r. is_among (map (λ d. d.tag) c.dns_servers) r.1 ≡ true) c.dns_rules
  pub server : is_among (map (λ d. d.tag) c.dns_servers) c.dns_final ≡ true
  pub choices : All (λ t. is_among (outbound_tags c) t ≡ true) (selected c.outbounds)
  pub routes : All (λ r. is_among (outbound_tags c) r.1 ≡ true) c.route_rules
  pub route : is_among (outbound_tags c) c.route_final ≡ true

is_among-append :
    (xs ys : List String) (t : String) → is_among xs t ≡ true → is_among (xs ++ ys) t ≡ true
is_among-append [] ys t h = absurd (cc)
is_among-append (x ∷ xs) ys t h = ground (arith, is_among-append xs ys t)

All-is_among :
    (xs ys : List String)
    → ((t : String) → is_among xs t ≡ true → is_among ys t ≡ true)
    → All (λ t. is_among ys t ≡ true) xs
All-is_among [] ys f = tt
All-is_among (x ∷ xs) ys f =
    (f x (ground (arith, eq_refl x)), All-is_among xs ys λ t h. f t (ground (arith, h)))

-- The tags that a document has, from those of its assignments.
abbrev all_tags : List String → List String
all_tags ts = "proxy" ∷ ts ++ "direct" ∷ "dns-out" ∷ []

or_direct-all_tags : (ts : List String) → All (λ t. is_among (all_tags ts) t ≡ true) (or_direct ts)
or_direct-all_tags [] = (refl, tt)
or_direct-all_tags (t ∷ ts) =
    All-is_among (t ∷ ts) (all_tags (t ∷ ts))
      λ u h. ground (arith, is_among-append (t ∷ ts) ("direct" ∷ "dns-out" ∷ []) u h)

fixed_among :
    (ts : List String) (t : String)
    → is_among ("direct" ∷ "dns-out" ∷ []) t ≡ true
    → is_among (all_tags ts) t ≡ true
fixed_among [] t h = ground (arith, h)
fixed_among (x ∷ ts) t h = ground (arith, h, fixed_among ts t)

module _ (parse : String → Option (String × String)) where
  singbox_outbounds-tags :
      (rows : List AccessWithNode)
      → All IsSupported rows
      → map (λ o. o.tag) (singbox_outbounds parse rows ++ fixed_outbounds)
        ≡ map outbound_tag rows ++ "direct" ∷ "dns-out" ∷ []
  unfolding singbox_outbounds
  singbox_outbounds-tags [] h = refl
  singbox_outbounds-tags (a ∷ rows) h = ground (arith, h.0, singbox_outbounds-tags rows h.1)

  singbox_outbounds-selected :
      (rows : List AccessWithNode) → selected (singbox_outbounds parse rows ++ fixed_outbounds) ≡ []
  unfolding singbox_outbounds
  singbox_outbounds-selected [] = refl
  singbox_outbounds-selected (a ∷ rows) = ground (arith, singbox_outbounds-selected rows)

  -- If every assignment has one of the two protocols, then every outbound that the document names, in a
  -- detour, in the selector or in the route, is the tag of one of its outbounds, and every DNS server
  -- that it names is one of its servers.
  pub build_singbox_json-IsClosed :
      (rows : List AccessWithNode) → All IsSupported rows → IsClosed (build_singbox_json parse rows)
  unfolding build_singbox_json
  build_singbox_json-IsClosed rows h = record {
    detours =
        rw (singbox_outbounds-tags rows h)
          (refl, (fixed_among (map outbound_tag rows) "direct" refl, tt));
    servers = (refl, tt);
    server = refl;
    choices =
        rw (singbox_outbounds-tags rows h, singbox_outbounds-selected rows)
          (All-append _ (or_direct (map outbound_tag rows)) []
            (or_direct-all_tags (map outbound_tag rows)) tt);
    routes =
        rw (singbox_outbounds-tags rows h) (fixed_among (map outbound_tag rows) "dns-out" refl, tt);
    route = refl;
  }
