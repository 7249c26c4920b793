-- ===== src/Users/Service/Atomic.antt =====
-- Creating a user with internal/users/service.go is all or nothing.
use mathlib.Core.List
use vetka_backend_panel.Prelude.{
  ℕ, String, Bool, true, false, ◌&&◌, ◌||◌, ◌≡◌, refl, ap, ◌∙◌, Option, none, some, List, [], ◌∷◌,
  map, ◌==◌, arith, eq_refl, All, All-mono,
}
use vetka_backend_panel.Prelude.Effects.{Result, ok, err, pure, raise, ◌>>=◌}
use vetka_backend_panel.Prelude.Triples.{
  Post, Triple, Triple-bind, Triple-pure, Triple-if, Triple-weaken, Invariant, Invariant-of_after,
}
use vetka_backend_panel.Security.{token, read_random}
use vetka_backend_panel.Users.Models.{User, Access, CreateUserInput}
use vetka_backend_panel.Users.Service
use vetka_backend_panel.Users.Service.{AssignmentCredential}
use vetka_backend_panel.Nodes.Repository.{find_node}
use vetka_backend_panel.World.{World, take_row_id}
use vetka_backend_panel.World.Statements.{refuse_if-Post, Triple-statement}

-- The user may use the node.
abbrev pub is_assigned : String → String → List Access → Bool
is_assigned user_id node_id [] = false
is_assigned user_id node_id (a ∷ rows) =
    (a.user_id == user_id && a.node_id == node_id && a.enabled) || is_assigned user_id node_id rows

upsert-own :
    (new : Access) (rows : List Access)
    → new.enabled ≡ true
    → is_assigned new.user_id new.node_id (Service.upsert new rows) ≡ true
unfolding Service.upsert
upsert-own new [] h = ground (arith, h, eq_refl new.user_id, eq_refl new.node_id)
upsert-own new (a ∷ rows) h = ground (arith, h, upsert-own new rows)

upsert-other :
    (u n : String) (new : Access) (rows : List Access)
    → is_assigned u n rows ≡ true
    → is_assigned u n (Service.upsert new rows) ≡ true
unfolding Service.upsert
upsert-other u n new [] h = cc
upsert-other u n new (a ∷ rows) h = ground (arith, h, upsert-other u n new rows)

module _ (users : List User) (access : List Access) where
  -- Users and access rows as given.
  abbrev Kept : World → Type 0
  Kept v = (v.users ≡ users) × (v.access ≡ access)

  token-Kept : (p : String) (n : ℕ) → Invariant Kept (token p n)
  unfolding token read_random
  token-Kept p n =
      Triple-bind (λ _. Kept) _ _ (Invariant-of_after _ λ w h. h) λ b. Triple-pure _ λ s h. h

  abbrev ForNode : String → AssignmentCredential → World → Type 0
  ForNode n c v = Kept v × (c.node_id ≡ n)

  credential-ForNode :
      (protocols : List (String × String)) (n : String)
      → Triple Kept (Service.credential protocols n) (ForNode n) Kept
  unfolding Service.credential raise
  credential-ForNode protocols n =
      Triple-if (Service.protocol_of n protocols == "") _ _ (λ _. record { at = λ s h. h })
        λ _.
          Triple-bind (λ _. Kept) _ _ (token-Kept "u" 8)
            λ u. Triple-bind (λ _. Kept) _ _ (token-Kept "p" 18) λ p. Triple-pure _ λ s h. (h, refl)

  abbrev ForNodes : List String → List AssignmentCredential → World → Type 0
  ForNodes ns cs v = Kept v × (map (λ c. c.node_id) cs ≡ ns)

  credentials_for-ForNodes :
      (protocols : List (String × String)) (ns : List String)
      → Triple Kept (Service.credentials_for protocols ns) (ForNodes ns) Kept
  unfolding Service.credentials_for
  credentials_for-ForNodes protocols [] = Triple-pure _ λ s h. (h, refl)
  credentials_for-ForNodes protocols (n ∷ ns) =
      Triple-bind (ForNode n) _ _ (credential-ForNode protocols n) λ c. record {
        at = λ s p.
            (Triple-bind (ForNodes ns) _ _ (credentials_for-ForNodes protocols ns) λ cs.
                Triple-pure _ λ t q.
                  (q.0, ap (λ x. x ∷ map (λ d. d.node_id) cs) p.1 ∙ ap (λ ms. n ∷ ms) q.1)).at
              s p.0;
      }

  -- The user has been added.
  abbrev Added : User → World → Type 0
  Added u v = v.users ≡ List.◌++◌ users (u ∷ [])

  insert_user-Added :
      (input : CreateUserInput) (t : String) (now : ℕ) (r : Result String) (w : World)
      → Kept w
      → Post Added Kept (Service.insert_user input t now (r, w))
  unfolding Service.insert_user Service.write_user
  insert_user-Added input t now (err e) w h = h
  insert_user-Added input t now (ok id) w h =
      refuse_if-Post Added Kept _ _ (Service.write_user input t now id) w h
        (ap (λ us. List.◌++◌ us (Service.new_user input t id now ∷ [])) h.0)

  take-Kept : (is : List String) (w : World) → Kept w → Kept (take_row_id is w).1
  take-Kept [] w h = h
  take-Kept (i ∷ is) w h = h

  create_user_row-Added :
      (input : CreateUserInput) (t : String) (now : ℕ)
      → Triple Kept (Service.create_user_row input t now) Added Kept
  unfolding Service.create_user_row
  create_user_row-Added input t now =
      Triple-statement Added (λ w e ts h. h) _
        λ w h.
          let (r, v) = take_row_id w.row_ids w in
          insert_user-Added input t now r v (take-Kept w.row_ids w h)

-- The users, and nodes that a user may use.
abbrev Assigned : String → List User → List String → World → Type 0
Assigned id us done v = (v.users ≡ us) × All (λ n. is_assigned id n v.access ≡ true) done

module _ (id : String) (us : List User) (done : List String) where
  take-Assigned :
      (is : List String) (w : World)
      → Assigned id us done w
      → Assigned id us done (take_row_id is w).1
  take-Assigned [] w h = h
  take-Assigned (i ∷ is) w h = h

  unless_refused-Post :
      (o : Option String) (Q : Unit {0} → World → Type 0) (run : World → Result (Unit {0}) × World)
      (w : World)
      → Assigned id us done w
      → Post Q (Assigned id us done) (run w)
      → Post Q (Assigned id us done) (Service.unless_refused o run w)
  unless_refused-Post none Q run w h k = k
  unless_refused-Post (some e) Q run w h k = h

  store_access-Assigned :
      (p : String) (c : AssignmentCredential) (now : ℕ) (i : String) (w : World)
      → Assigned id us done w
      → Post
          (λ _. Assigned id us (c.node_id ∷ done))
          (Assigned id us done)
          (Service.store_access id p c now i w)
  unfolding Service.store_access Service.write_access
  store_access-Assigned p c now i w h =
      refuse_if-Post (λ _. Assigned id us (c.node_id ∷ done)) (Assigned id us done) _ _
        (Service.write_access id p c now i) w h
        (
          h.0,
          (
            upsert-own (Service.new_access id p c i now) w.access refl,
            All-mono done (λ n. upsert-other id n (Service.new_access id p c i now) w.access) h.1,
          ),
        )

  insert_access-Assigned :
      (p : String) (c : AssignmentCredential) (now : ℕ) (r : Result String) (w : World)
      → Assigned id us done w
      → Post
          (λ _. Assigned id us (c.node_id ∷ done))
          (Assigned id us done)
          (Service.insert_access id p c now (r, w))
  unfolding Service.insert_access
  insert_access-Assigned p c now (err e) w h = h
  insert_access-Assigned p c now (ok i) w h =
      unless_refused-Post (Service.refusal p (find_node c.node_id w.nodes))
        (λ _. Assigned id us (c.node_id ∷ done)) (Service.store_access id p c now i) w h
        (store_access-Assigned p c now i w h)

  assign_node-Assigned :
      (p : String) (c : AssignmentCredential) (now : ℕ)
      → Triple
          (Assigned id us done)
          (Service.assign_node id p c now)
          (λ _. Assigned id us (c.node_id ∷ done))
          (Assigned id us done)
  unfolding Service.assign_node
  assign_node-Assigned p c now =
      Triple-statement (λ _. Assigned id us (c.node_id ∷ done)) (λ w e ts h. h) _
        λ w h.
          let (r, v) = take_row_id w.row_ids w in
          insert_access-Assigned p c now r v (take-Assigned w.row_ids w h)

-- The nodes of the credentials, the last one first, before the others.
abbrev nodes_after : List AssignmentCredential → List String → List String
nodes_after [] done = done
nodes_after (c ∷ cs) done = nodes_after cs (c.node_id ∷ done)

Anything : World → Type 0
Anything w = Unit

assign_each-Assigned :
    (id : String) (us : List User) (protocols : List (String × String)) (now : ℕ)
    (done : List String) (cs : List AssignmentCredential)
    → Triple
        (Assigned id us done)
        (Service.assign_each id protocols cs now)
        (λ _. Assigned id us (nodes_after cs done))
        Anything
unfolding Service.assign_each Anything raise
assign_each-Assigned id us protocols now done [] = Triple-pure _ λ s h. h
assign_each-Assigned id us protocols now done (c ∷ cs) =
    Triple-if (Service.protocol_of c.node_id protocols == "") _ _ (λ _. record { at = λ s h. tt })
      λ _.
        Triple-bind (λ _. Assigned id us (c.node_id ∷ done)) _ _
          (Triple-weaken (λ _. Assigned id us (c.node_id ∷ done)) (λ s h. tt) _
            (assign_node-Assigned id us done (Service.protocol_of c.node_id protocols) c now))
          λ _. assign_each-Assigned id us protocols now (c.node_id ∷ done) cs

All-nodes_after :
    (P : String → Type 0) (cs : List AssignmentCredential) (done : List String)
    → All P (nodes_after cs done)
    → All P done × All P (map (λ c. c.node_id) cs)
All-nodes_after P [] done h = (h, tt)
All-nodes_after P (c ∷ cs) done h =
    let k : All P (c.node_id ∷ done) × All P (map (λ d. d.node_id) cs) =
      All-nodes_after P cs (c.node_id ∷ done) h in
    (k.0.1, (k.0.0, k.1))

-- The user has been added, and may use the nodes.
abbrev pub Created : List User → List String → User → World → Type 0
Created users ns u v =
    (v.users ≡ List.◌++◌ users (u ∷ [])) × All (λ n. is_assigned u.id n v.access ≡ true) ns

abbrev AfterBody : List User → List AssignmentCredential → User → World → Type 0
AfterBody users cs u = Assigned u.id (List.◌++◌ users (u ∷ [])) (nodes_after cs [])

body-AfterBody :
    (users : List User) (access : List Access) (input : CreateUserInput) (t : String)
    (protocols : List (String × String)) (cs : List AssignmentCredential) (now : ℕ)
    → Triple
        (Kept users access)
        (Service.create_user_row input t now >>= λ u.
          Service.assign_each u.id protocols cs now >>= λ _. pure u)
        (AfterBody users cs)
        Anything
unfolding Anything
body-AfterBody users access input t protocols cs now =
    Triple-bind (Added users access) _ _
      (Triple-weaken (Added users access) (λ s h. tt) _
        (create_user_row-Added users access input t now))
      λ u. record {
        at = λ s h.
            (Triple-bind (λ _. AfterBody users cs u) _ _
                (assign_each-Assigned u.id (List.◌++◌ users (u ∷ [])) protocols now [] cs)
                λ _. Triple-pure u λ v k. k).at
              s (h, tt);
      }

rolled_back-Post :
    (users : List User) (access : List Access) (Q : User → World → Type 0) (w : World)
    (r : Result User) (v : World)
    → Kept users access w
    → Post Q Anything (r, v)
    → Post Q (Kept users access) (Service.rolled_back w (r, v))
rolled_back-Post users access Q w (ok u) v h k = k
rolled_back-Post users access Q w (err e) v h k = h

create_with_assignments-AfterBody :
    (users : List User) (access : List Access) (input : CreateUserInput) (t : String)
    (protocols : List (String × String)) (cs : List AssignmentCredential) (w : World)
    → Kept users access w
    → Post
        (AfterBody users cs)
        (Kept users access)
        (Service.create_with_assignments input t protocols cs w)
unfolding Service.create_with_assignments Service.transaction Anything
create_with_assignments-AfterBody users access input t protocols cs w h =
    rolled_back-Post users access (AfterBody users cs) w _ _ h (
      (Triple-bind (λ _. Kept users access) Service.mark_time _
          (Triple-weaken (λ _. Kept users access) (λ s k. tt) _
            (Triple-statement (λ _. Kept users access) (λ w e ts k. k) _ λ v k. k))
          λ now.
            Triple-bind (AfterBody users cs) _ _
              (body-AfterBody users access input t protocols cs now)
              λ u.
                Triple-bind (λ _. AfterBody users cs u) Service.commit _
                  (Triple-weaken (λ _. AfterBody users cs u) (λ s k. tt) _
                    (Triple-statement (λ _. AfterBody users cs u) (λ w e ts k. k) _ λ v k. k))
                  λ _. Triple-pure u λ v k. k).at
        w h)

wrapped-Post :
    (Q : User → World → Type 0) (E : World → Type 0) (r : Result User) (v : World)
    → Post Q E (r, v)
    → Post Q E (Service.wrapped (r, v))
wrapped-Post Q E (ok u) v h = h
wrapped-Post Q E (err e) v h = h

finish :
    (users : List User) (access : List Access) (input : CreateUserInput) (t : String)
    (protocols : List (String × String)) (cs : List AssignmentCredential)
    → Triple
        (ForNodes users access input.node_ids cs)
        (λ w. Service.wrapped (Service.create_with_assignments input t protocols cs w))
        (Created users input.node_ids)
        (Kept users access)
finish users access input t protocols cs = record {
  at = λ w h.
      let (r, v) = Service.create_with_assignments input t protocols cs w in
      wrapped-Post _ _ r v (
        created w h r v
          (create_with_assignments-AfterBody users access input t protocols cs w h.0));
}
  where
    created :
        (w : World)
        → ForNodes users access input.node_ids cs w
        → (r : Result User) (v : World) → Post (AfterBody users cs) (Kept users access) (r, v)
        → Post (Created users input.node_ids) (Kept users access) (r, v)
    created w h (ok u) v k =
        (k.0, rw (← h.1) (All-nodes_after (λ n. is_assigned u.id n v.access ≡ true) cs [] k.1).1)
    created w h (err e) v k = k

-- Whatever statements fail, creating a user either returns the user, who then is the only new row of the
-- users and may use each of the nodes asked for, or fails and leaves users and access rows as they were.
pub create_user-Created :
    (input : CreateUserInput) (protocols : List (String × String)) (w : World)
    → Post
        (Created w.users input.node_ids)
        (λ v. (v.users ≡ w.users) × (v.access ≡ w.access))
        (Service.create_user input protocols w)
unfolding Service.create_user
create_user-Created input protocols w =
    (Triple-bind (λ _. Kept w.users w.access) _ _ (token-Kept w.users w.access "sub" 24)
        λ t.
          Triple-bind (ForNodes w.users w.access input.node_ids) _ _
            (credentials_for-ForNodes w.users w.access protocols input.node_ids)
            (finish w.users w.access input t protocols)).at
      w (refl, refl)
