-- ===== src/Server/Api/Methods.antt =====
-- Which methods reach the routes that delete.
use innernet.Prelude.{
  ℕ, String, ◌≡◌, refl, subst, inl, inr, Bool, true, false, not, Option, none, some, List, [], ◌∷◌,
  arith, if◌then◌else◌, Option-cases, ◌==◌, nat_eq, string_eq, option_eq,
}
use innernet.Server.Api.Routes.{
  Method, get, post, put, delete, Route, list_associations, create_association, list_cidrs,
  create_cidr, list_peers, create_peer, delete_association, delete_cidr, update_peer, delete_peer,
  state, redeem, override_endpoint, with_id, association_route, cidr_route, peer_route, user_route,
  admin_route, route,
}

-- The routes that delete a CIDR or an association, or disable a peer.
abbrev pub is_deletion : Route → Bool
is_deletion (delete_association _) = true
is_deletion (delete_cidr _) = true
is_deletion (delete_peer _) = true
is_deletion _ = false

module _ (parse_id : String → Option ℕ) where
  -- What a part of the paths keeps to.
  abbrev DeletesOnly : Method → Option Route → Type 0
  DeletesOnly m o = (r : Route) → o ≡ some r → is_deletion r ≡ true → m ≡ delete

  none_deletes : (m : Method) → DeletesOnly m none
  none_deletes m r h d = ground (arith, h)

  quiet_deletes : (m : Method) (q : Route) → is_deletion q ≡ false → DeletesOnly m (some q)
  quiet_deletes m q quiet r h d =
      let same : q ≡ r = ground (arith, h) in
      let no = subst (λ x. is_deletion x ≡ false) same quiet in ground (arith, no, d)

  with_id_quiet :
      (m : Method) (f : ℕ → Route) (segment : String)
      → ((i : ℕ) → is_deletion (f i) ≡ false)
      → DeletesOnly m (with_id parse_id f segment)
  with_id_quiet m f segment quiet r h d = elim (Option-cases (parse_id segment)) [
    | inl bad ↦ ground (arith, h, bad)
    | inr (i, good) ↦
        let same : f i ≡ r = ground (arith, h, good) in
        let no = subst (λ x. is_deletion x ≡ false) same (quiet i) in ground (arith, no, d)
  ]

  association_deletes :
      (m : Method) (rest : List String) → DeletesOnly m (association_route parse_id m rest)
  unfolding association_route
  association_deletes get [] = quiet_deletes get list_associations refl
  association_deletes post [] = quiet_deletes post create_association refl
  association_deletes put [] = none_deletes put
  association_deletes delete [] = λ r h d. refl
  association_deletes delete (id ∷ []) = λ r h d. refl
  association_deletes delete (id ∷ (x ∷ xs)) = λ r h d. refl
  association_deletes get (id ∷ rest) = none_deletes get
  association_deletes post (id ∷ rest) = none_deletes post
  association_deletes put (id ∷ rest) = none_deletes put

  cidr_deletes : (m : Method) (rest : List String) → DeletesOnly m (cidr_route parse_id m rest)
  unfolding cidr_route
  cidr_deletes get [] = quiet_deletes get list_cidrs refl
  cidr_deletes post [] = quiet_deletes post create_cidr refl
  cidr_deletes put [] = none_deletes put
  cidr_deletes delete [] = λ r h d. refl
  cidr_deletes delete (id ∷ []) = λ r h d. refl
  cidr_deletes delete (id ∷ (x ∷ xs)) = λ r h d. refl
  cidr_deletes get (id ∷ rest) = none_deletes get
  cidr_deletes post (id ∷ rest) = none_deletes post
  cidr_deletes put (id ∷ rest) = none_deletes put

  peer_deletes : (m : Method) (rest : List String) → DeletesOnly m (peer_route parse_id m rest)
  unfolding peer_route
  peer_deletes get [] = quiet_deletes get list_peers refl
  peer_deletes post [] = quiet_deletes post create_peer refl
  peer_deletes put [] = none_deletes put
  peer_deletes delete [] = λ r h d. refl
  peer_deletes delete (id ∷ []) = λ r h d. refl
  peer_deletes delete (id ∷ (x ∷ xs)) = λ r h d. refl
  peer_deletes put (id ∷ []) = with_id_quiet put update_peer id (λ i. refl)
  peer_deletes put (id ∷ (x ∷ xs)) = none_deletes put
  peer_deletes get (id ∷ rest) = none_deletes get
  peer_deletes post (id ∷ rest) = none_deletes post

  choice_deletes :
      (m : Method) (b : Bool) (o q : Option Route)
      → DeletesOnly m o
      → DeletesOnly m q
      → DeletesOnly m (if b then o else q)
  choice_deletes m true o q first second = first
  choice_deletes m false o q first second = second

  user_deletes : (m : Method) (rest : List String) → DeletesOnly m (user_route parse_id m rest)
  unfolding user_route
  user_deletes get [] = none_deletes get
  user_deletes post [] = none_deletes post
  user_deletes put [] = none_deletes put
  user_deletes delete [] = none_deletes delete
  user_deletes get (word ∷ []) =
      choice_deletes get (word == "state") (some state) none (quiet_deletes get state refl)
        (none_deletes get)
  user_deletes post (word ∷ []) =
      choice_deletes post (word == "redeem") (some redeem) none (quiet_deletes post redeem refl)
        (none_deletes post)
  user_deletes put (word ∷ []) =
      choice_deletes put (word == "endpoint") (some override_endpoint) none
        (quiet_deletes put override_endpoint refl) (none_deletes put)
  user_deletes delete (word ∷ []) = λ r h d. refl
  user_deletes get (x ∷ (y ∷ ys)) = none_deletes get
  user_deletes post (x ∷ (y ∷ ys)) = none_deletes post
  user_deletes put (x ∷ (y ∷ ys)) = none_deletes put
  user_deletes delete (x ∷ (y ∷ ys)) = none_deletes delete

  admin_deletes : (m : Method) (rest : List String) → DeletesOnly m (admin_route parse_id m rest)
  unfolding admin_route
  admin_deletes m [] = none_deletes m
  admin_deletes m (word ∷ rest) =
      choice_deletes m (word == "associations") (association_route parse_id m rest) _
        (association_deletes m rest)
        (choice_deletes m (word == "cidrs") (cidr_route parse_id m rest) _ (cidr_deletes m rest) (
          choice_deletes m (word == "peers") (peer_route parse_id m rest) none (peer_deletes m rest)
            (none_deletes m)))

  -- Only requests with the method DELETE reach a route that deletes a CIDR or an association or
  -- disables a peer, whatever their path.
  route-is_deletion :
      (m : Method) (path : List String) (r : Route)
      → route parse_id m path ≡ some r
      → is_deletion r ≡ true
      → m ≡ delete
  unfolding route
  route-is_deletion m [] r h d = ground (arith, h)
  route-is_deletion m (x ∷ []) r h d = ground (arith, h)
  route-is_deletion m (version ∷ (area ∷ rest)) r h d =
      choice_deletes m (not (version == "v1")) none _ (none_deletes m)
        (choice_deletes m (area == "admin") (admin_route parse_id m rest) _ (admin_deletes m rest) (
          choice_deletes m (area == "user") (user_route parse_id m rest) none (user_deletes m rest)
            (none_deletes m)))
        r h d
