-- ===== src/Client/Commands/Enables.antt =====
-- What `enable_or_disable_peer` changes at the server.
use innernet.Prelude.{
  ℕ, String, ◌≡◌, sym, ap, ◌∙◌, subst, ◌⊎◌, inl, inr, Bool, true, not, Option, some, List, [], ◌∷◌,
  arith, In, filter,
}
use innernet.Net.{SocketAddr}
use innernet.Wg.{Base64}
use innernet.Wg.DeviceBuilder.{DeviceConfigBuilder}
use innernet.Shared.{Peer, PeerContents}
use innernet.Shared.Prompts as Prompts
use innernet.Shared.Prompts.{chosen, nth, is_eligible}
use innernet.Server.Db.{ServerError, ok, PeerRow, Packages}
use innernet.Server.Db.Invariant.{WellFormed}
use innernet.Server.Session.{with_admin_session}
use innernet.Server.Api.{ServerState, Reply, replied, rejected, nothing, inject_endpoint}
use innernet.Server.Api.Admin
use innernet.Server.Db.Peers
use innernet.Server.Db.Peers.{
  map_ok, from_row, updated_contents, set_row, renames_onto, is_valid_name, map_ok,
}
use innernet.Server.Api.Routes.{serve_request, route, admin_route, peer_route, Request, run}
use innernet.Client.Http.{
  Answer, got, failed, Command, ◌>>=◌, no_forms, as_peers, ignored, http_get, http_put, request,
  call, process_response,
}
use innernet.Client.Commands.{after_prompt, enable_or_disable_peer}
use innernet.Client.Commands.Rows.{listed, after_switch, listed_row, injected, update_switched}

then-got :
    {S A B : Type 0} (m : Command S A) (f : A → Command S B) (s t : S) (a : A)
    → m s ≡ (t, got a)
    → (m >>= f) s ≡ f a t
then-got {S} {A} m f s t a e = ap (λ (r : S × Answer A). ((λ (u : S). r) >>= f) s) e

eligible_disabled :
    (enable : Bool) (peer : Peer) → is_eligible enable peer ≡ true → peer.is_disabled ≡ enable
eligible_disabled enable peer h = ground arith

confirmed_choice :
    (peers : List Peer) (enable : Bool) (index : ℕ) (peer : Peer)
    → nth (filter (is_eligible enable) peers) index ≡ some peer
    → Prompts.enable_or_disable_peer peers enable index true ≡ chosen peer
unfolding Prompts.enable_or_disable_peer
confirmed_choice peers enable index peer h = ground (arith, h)

module _ (pk : Packages) (base64 : Base64) (accepts : DeviceConfigBuilder → Bool)
    (parse_id : String → Option ℕ) (local : Option SocketAddr) where
  abbrev ask : Request → ServerState → ServerState × Reply
  ask = serve_request pk base64 accepts parse_id

  peers_read :
      (me : Peer) (s : ServerState)
      → with_admin_session local s.conn ≡ ok me
      → http_get ask local as_peers ("admin" ∷ "peers" ∷ []) s ≡ (s, got (listed s))
  unfolding http_get request call process_response serve_request route admin_route peer_route run
      Admin.list_peers Peers.list
  peers_read me s e = ground (arith, e)

  peer_put :
      (me : Peer) (segment : String) (id : ℕ) (contents : PeerContents) (s : ServerState)
      → with_admin_session local s.conn ≡ ok me
      → parse_id segment ≡ some id
      → http_put ask local
          ("admin" ∷ "peers" ∷ segment ∷ [])
          (record no_forms { as_peer = some contents })
          s
        ≡ (let r : ServerState × Reply = Admin.update_peer pk id contents s in
            (r.0, process_response ignored r.1))
  unfolding http_put request call process_response serve_request route admin_route peer_route run
  peer_put me segment id contents s e parsed = ground (arith, e, parsed)

  abbrev put_switched : (ℕ → String) → Bool → Peer → Command ServerState (Unit {0})
  put_switched show enable peer =
      http_put ask local ("admin" ∷ "peers" ∷ show peer.id ∷ [])
        (record no_forms { as_peer = some (record (peer.contents) { is_disabled = not enable }) })

  enable_or_disable_peer-put :
      (show : ℕ → String) (me peer : Peer) (enable : Bool) (index : ℕ) (s : ServerState)
      → with_admin_session local s.conn ≡ ok me
      → nth (filter (is_eligible enable) (listed s)) index ≡ some peer
      → enable_or_disable_peer ask local show enable index true s ≡ put_switched show enable peer s
  unfolding enable_or_disable_peer
  enable_or_disable_peer-put show me peer enable index s admin picked =
      let rest : List Peer → Command ServerState (Unit {0}) = λ peers.
        after_prompt (Prompts.enable_or_disable_peer peers enable index true)
          (put_switched show enable) in
      let read = http_get ask local as_peers ("admin" ∷ "peers" ∷ []) in
      then-got read rest s s (listed s) (peers_read me s admin)
      ∙ ap (λ o. after_prompt o (put_switched show enable) s)
          (confirmed_choice (listed s) enable index peer picked)

  put_switched-cases :
      (show : ℕ → String) (me peer : Peer) (enable : Bool) (p : PeerRow) (s : ServerState)
      → parse_id (show peer.id) ≡ some peer.id
      → WellFormed pk.net s.conn
      → with_admin_session local s.conn ≡ ok me
      → In p s.conn.peers
      → peer ≡ inject_endpoint s.endpoints (from_row p)
      → (put_switched show enable peer s ≡ (s, failed))
        ⊎ (put_switched show enable peer s ≡ (after_switch enable p s, got tt))
  unfolding process_response
  put_switched-cases show me peer enable p s parsed wf admin i e =
      let sent : PeerContents = record (peer.contents) { is_disabled = not enable } in
      let put = peer_put me (show peer.id) peer.id sent s admin parsed in
      let answered : ServerState × Reply → ServerState × Answer (Unit {0}) =
        λ r. (r.0, process_response ignored r.1) in
      elim (subst (λ (x : Peer). IsSwitchOf x) (sym e) (update_switched pk enable p s wf i)) [
        | inl (x, u) ↦ inl (put ∙ ap answered u)
        | inr u ↦ inr (put ∙ ap answered u)
      ]
    where
      IsSwitchOf : Peer → Type 0
      IsSwitchOf x =
          let r : ServerState × Reply =
            Admin.update_peer pk x.id (record (x.contents) { is_disabled = not enable }) s in
          ((y : ServerError) × (r ≡ (s, rejected y)))
          ⊎ (r ≡ (after_switch enable p s, replied 204 nothing))

  -- Where an administrator asks to enable or disable a peer and confirms, the peers that are offered
  -- are those that are disabled, or enabled; either the server refuses, and nothing changes, or the
  -- chosen peer is enabled or disabled, and the endpoint that was listed with it, also one that was
  -- only seen on the interface, becomes the endpoint that is stored for it. Nothing else changes.
  pub enable_or_disable_peer-switched :
      (show : ℕ → String) (me peer : Peer) (enable : Bool) (index : ℕ) (s : ServerState)
      → parse_id (show peer.id) ≡ some peer.id
      → WellFormed pk.net s.conn
      → with_admin_session local s.conn ≡ ok me
      → nth (filter (is_eligible enable) (listed s)) index ≡ some peer
      → let r : ServerState × Answer (Unit {0}) =
          enable_or_disable_peer ask local show enable index true s in
        (p : PeerRow) × In p s.conn.peers
        × (peer.id ≡ p.id)
        × (p.is_disabled ≡ enable)
        × ((r ≡ (s, failed)) ⊎ (r ≡ (after_switch enable p s, got tt)))
  enable_or_disable_peer-switched show me peer enable index s parsed wf admin picked =
      let (p, i, e, eligible) = listed_row s enable index peer picked in
      let (id, _, _, disabled) = injected s.endpoints p in
      let command = enable_or_disable_peer-put show me peer enable index s admin picked in
      (
        p,
        i,
        ap (λ (x : Peer). x.id) e ∙ id,
        sym (ap (λ (x : Peer). x.is_disabled) e ∙ disabled)
            ∙ eligible_disabled enable peer eligible,
        elim (put_switched-cases show me peer enable p s parsed wf admin i e) [
          | inl u ↦ inl (command ∙ u)
          | inr u ↦ inr (command ∙ u)
        ],
      )
