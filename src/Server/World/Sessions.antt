-- ===== src/Server/World/Sessions.antt =====
-- The session that a handler runs with, where others act between its lookup and its turn.
use innernet.Prelude.{
  ℕ, String, ◌≡◌, refl, sym, subst, ◌⊎◌, inl, inr, Bool, true, false, Option, some, List, [], ◌∷◌,
  ◌++◌, In, In-append_left, In-append_right, In-append,
}
use innernet.Wg.{Base64}
use innernet.Wg.DeviceBuilder.{DeviceConfigBuilder}
use innernet.Server.Db.{ok, PeerRow, Packages, PackagesLaws}
use innernet.Server.Db.Peers.{from_row}
use innernet.Server.Session.{
  get_session, remote_ip, with_session, with_admin_session, with_unredeemed_session,
}
use innernet.Server.Session.Laws.{MayAct, get_session_iff}
use innernet.Server.Api.Routes.{
  Route, list_associations, create_association, list_cidrs, create_cidr, list_peers, create_peer,
  delete_association, delete_cidr, update_peer, delete_peer, state, redeem, override_endpoint,
}
use innernet.Server.Api.Tasks.{session_of}
use innernet.Server.Api.Keeps.{IsSound}
use innernet.Server.World.{
  Pending, World, Step, admit, handle, drop, wake, look, Reach, here, later, Reach-IsSound,
}

abbrev pub is_for_admins : Route → Bool
is_for_admins state = false
is_for_admins redeem = false
is_for_admins override_endpoint = false
is_for_admins _ = true

abbrev pub is_for_redeemed : Route → Bool
is_for_redeemed redeem = false
is_for_redeemed _ = true

session_of-get_session :
    (r : Route) (q : _)
    → session_of r q ≡ get_session (remote_ip q) (is_for_admins r) (is_for_redeemed r)
unfolding session_of with_session with_admin_session with_unredeemed_session
session_of-get_session list_associations q = refl
session_of-get_session create_association q = refl
session_of-get_session (delete_association id) q = refl
session_of-get_session list_cidrs q = refl
session_of-get_session create_cidr q = refl
session_of-get_session (delete_cidr id) q = refl
session_of-get_session list_peers q = refl
session_of-get_session create_peer q = refl
session_of-get_session (update_peer id) q = refl
session_of-get_session (delete_peer id) q = refl
session_of-get_session state q = refl
session_of-get_session redeem q = refl
session_of-get_session override_endpoint q = refl

module _ (pk : Packages) (base64 : Base64) (accepts : DeviceConfigBuilder → Bool)
    (parse_id : String → Option ℕ) where
  -- The filter of a handler's route granted its session, on the way to a state.
  abbrev Granted : World → World → Pending → Type 0
  Granted w t p =
      (u : World) × Reach pk base64 accepts parse_id w u
      × Reach pk base64 accepts parse_id u t
      × (session_of p.route p.request.remote u.server.conn ≡ ok p.session)

  remaining_kept :
      (ps before after : List Pending) (p x : Pending)
      → ps ≡ before ++ x ∷ after
      → In p (before ++ after)
      → In p ps
  remaining_kept ps before after p x e i =
      subst (λ l. In p l) (sym e)
        (elim (In-append p before after i) [
          | inl l ↦ In-append_left p before (x ∷ after) l
          | inr r ↦ In-append_right p before (x ∷ after) (inr r)
        ])

  -- Whatever waits after a step waited before it, or its session has just been found.
  admitted_or_kept :
      {t u : World}
      → Step pk base64 accepts parse_id t u
      → (p : Pending) → In p u.pending
      → In p t.pending ⊎ (session_of p.route p.request.remote t.server.conn ≡ ok p.session)
  admitted_or_kept {t} (admit r q peer routed found) p i = elim (In-append p t.pending _ i) [
    | inl l ↦ inl l
    | inr (inr n) ↦ elim n [ ]
    | inr (inl e) ↦ inr (
        subst (λ x. session_of x.route x.request.remote t.server.conn ≡ ok x.session) (sym e) found)
  ]
  admitted_or_kept {t} (handle before after x h waits e) p i =
      inl (remaining_kept t.pending before after p x waits i)
  admitted_or_kept {t} (drop before after x waits) p i =
      inl (remaining_kept t.pending before after p x waits i)
  admitted_or_kept (wake before after builder waits) p i = inl i
  admitted_or_kept (look device) p i = inl i

  waiting-Granted :
      (w : World) {t : World}
      → Reach pk base64 accepts parse_id w t
      → w.pending ≡ []
      → (p : Pending) → In p t.pending
      → Granted w t p
  waiting-Granted w here idle p i = elim (subst (λ l. In p l) idle i) [ ]
  waiting-Granted w (later {t} r step) idle p i = elim (admitted_or_kept step p i) [
    | inl k ↦
        let (u, before, after, found) = waiting-Granted w r idle p k in
        (u, before, later after step, found)
    | inr found ↦ (t, r, later here step, found)
  ]

  -- Where no handler waited at first and the database was sound, whatever handler waits now has the
  -- session of a peer that was, in some state on the way, enabled and at the address of the request,
  -- an administrator unless the route is one of the three of a peer, and redeemed unless the route is
  -- that of redeeming.
  pub pending_was_granted :
      (laws : PackagesLaws pk) (w : World) {t : World}
      → Reach pk base64 accepts parse_id w t
      → w.pending ≡ []
      → IsSound pk w.server.conn
      → (p : Pending) → In p t.pending
      → (u : World) × Reach pk base64 accepts parse_id w u
        × Reach pk base64 accepts parse_id u t
        × (row : PeerRow) × In row u.server.conn.peers
        × (remote_ip p.request.remote ≡ some row.ip)
        × MayAct (is_for_admins p.route) (is_for_redeemed p.route) row
        × (p.session ≡ from_row row)
  pending_was_granted laws w r idle sound p i =
      let (u, before, after, found) = waiting-Granted w r idle p i in
      let v : IsSound pk u.server.conn =
        Reach-IsSound pk base64 accepts parse_id laws before sound in
      let looked =
        subst (λ f. f u.server.conn ≡ ok p.session)
          (session_of-get_session p.route p.request.remote) found in
      let (row, inside, at, may, same) =
        ((get_session_iff pk.net u.server.conn (remote_ip p.request.remote) (is_for_admins p.route)
              (is_for_redeemed p.route) v.well_formed).0
            p.session).0
          looked in
      (u, before, after, row, inside, at, may, same)
