-- ===== src/Telemetry/Resolve/Index.antt =====
-- The index that internal/telemetry/service.go builds of the lookups.
use vetka_backend_panel.Prelude.{
  String, Bool, true, false, ◌&&◌, ◌||◌, ◌≡◌, refl, sym, ap, ◌∙◌, List, [], ◌∷◌, ◌++◌, ◌==◌, arith,
  eq_iff,
}
use vetka_backend_panel.Telemetry.Models.{SessionLookup}
use vetka_backend_panel.Telemetry.Resolve.{
  NodeItems, FallbackIndex, items_of, users_of, has_user, with_user, put_user, put_item, index_from,
  build_fallback_index,
}

-- A lookup of the list names the node, the name and the user.
abbrev pub names : String → String → String → SessionLookup → Bool
names node name id l = l.node_id == node && l.protocol_username == name && l.user_id == id

abbrev pub some_names : String → String → String → List SessionLookup → Bool
some_names node name id [] = false
some_names node name id (l ∷ ls) = names node name id l || some_names node name id ls

has_user-append :
    (id x : String) (xs : List String) → has_user id (xs ++ x ∷ []) ≡ (has_user id xs || x == id)
unfolding has_user
has_user-append id x [] = ground arith
has_user-append id x (y ∷ xs) = ground (arith, has_user-append id x xs)

has_user-with :
    (id x : String) (xs : List String) → has_user id (with_user x xs) ≡ (has_user id xs || x == id)
unfolding with_user
has_user-with id x xs = ground (arith, has_user-append id x xs, eq_iff x id)

users_of-put :
    (name n id x : String) (items : NodeItems)
    → has_user id (users_of name (put_user n x items))
      ≡ (has_user id (users_of name items) || (n == name && x == id))
unfolding users_of put_user has_user
users_of-put name n id x [] = ground (arith)
users_of-put name n id x (e ∷ es) = ground (
  arith,
  users_of-put name n id x es,
  has_user-with id x e.1,
  eq_iff e.0 n,
  eq_iff n name,
  eq_iff e.0 name,
)

users_of-none : (name id : String) → has_user id (users_of name []) ≡ false
unfolding users_of has_user
users_of-none name id = refl

or_false : (b : Bool) → (b || false) ≡ b
or_false false = refl
or_false true = refl

users_of-put_item :
    (node name id : String) (l : SessionLookup) (index : FallbackIndex)
    → has_user id (users_of name (items_of node (put_item l index)))
      ≡ (has_user id (users_of name (items_of node index)) || names node name id l)
unfolding items_of put_item
users_of-put_item node name id l [] =
    ground (arith, users_of-put name l.protocol_username id l.user_id [], users_of-none name id)
users_of-put_item node name id l (e ∷ es) = ground (
  arith,
  users_of-put name l.protocol_username id l.user_id e.1,
  users_of-put_item node name id l es,
  eq_iff e.0 l.node_id,
  eq_iff l.node_id node,
  eq_iff e.0 node,
)

or_assoc : (a b c : Bool) → ((a || b) || c) ≡ (a || (b || c))
or_assoc true b c = refl
or_assoc false b c = refl

users_of-index_from :
    (node name id : String) (index : FallbackIndex) (ls : List SessionLookup)
    → has_user id (users_of name (items_of node (index_from index ls)))
      ≡ (has_user id (users_of name (items_of node index)) || some_names node name id ls)
unfolding index_from
users_of-index_from node name id index [] = sym (or_false _)
users_of-index_from node name id index (l ∷ ls) =
    users_of-index_from node name id (put_item l index) ls
    ∙ ap (λ b. b || some_names node name id ls) (users_of-put_item node name id l index)
    ∙ or_assoc (has_user id (users_of name (items_of node index))) (names node name id l)
        (some_names node name id ls)

-- The users that the index gives for a node and a name are those of the lookups with that node and name.
pub build_fallback_index_lem :
    (node name id : String) (lookups : List SessionLookup)
    → has_user id (users_of name (items_of node (build_fallback_index lookups)))
      ≡ some_names node name id lookups
unfolding build_fallback_index items_of users_of has_user
build_fallback_index_lem node name id lookups = users_of-index_from node name id [] lookups
