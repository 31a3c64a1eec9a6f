-- ===== src/Server/Session/Laws.antt =====
-- Whom `get_session` admits.
use innernet.Prelude.{
  ◌≡◌, refl, sym, ap, subst, ◌↔◌, ◌⊎◌, inl, inr, Bool, true, false, Option, none, some, arith,
  Option-cases, ◌==◌, ==_iff, nat_eq, string_eq, option_eq, In, find, find-some, find-key,
}
use innernet.Net.{IpAddr, ip_eq, Ipnetwork}
use innernet.Shared.{Peer}
use innernet.Server.Db.{unauthorized, Result, ok, err, ◌>>=◌, PeerRow, Connection}
use innernet.Server.Db.Invariant.{WellFormed}
use innernet.Server.Db.Peers
use innernet.Server.Db.Peers.{from_row, map_ok}
use innernet.Server.Session.{check_peer, or_unauthorized, get_session}

-- The peer of an address that may act: enabled, and an administrator and redeemed where asked.
abbrev pub MayAct : Bool → Bool → PeerRow → Type 0
MayAct admin_only redeemed_only p =
    (p.is_disabled ≡ false)
    × ((admin_only ≡ true) → p.is_admin ≡ true)
    × ((redeemed_only ≡ true) → p.is_redeemed ≡ true)

check_peer_iff :
    (a r : Bool) (p : PeerRow) (s : Peer)
    → (check_peer a r (from_row p) ≡ ok s) ↔ (MayAct a r p × (s ≡ from_row p))
unfolding from_row
check_peer_iff true true p s = (λ h. ground arith, λ h. ground arith)
check_peer_iff true false p s = (λ h. ground arith, λ h. ground arith)
check_peer_iff false true p s = (λ h. ground arith, λ h. ground arith)
check_peer_iff false false p s = (λ h. ground arith, λ h. ground arith)

admitted_ok :
    (a r : Bool) (p : PeerRow) (s : Peer)
    → or_unauthorized (check_peer a r (from_row p)) ≡ ok s
    → check_peer a r (from_row p) ≡ ok s
admitted_ok a r p s h = ground arith

-- In a well formed database a session is the peer of the sender's address, if that peer is enabled,
-- an administrator where one is asked for, and redeemed where that is asked for; whoever else sends
-- a request, from an unknown address or from none, is answered Unauthorized.
pub get_session_iff :
    (net : Ipnetwork) (conn : Connection) (addr : Option IpAddr) (admin_only redeemed_only : Bool)
    → WellFormed net conn
    → ((s : Peer)
        → (get_session addr admin_only redeemed_only conn ≡ ok s) ↔ (
            (p : PeerRow) × In p conn.peers
            × (addr ≡ some p.ip)
            × MayAct admin_only redeemed_only p
            × (s ≡ from_row p)))
      × ((get_session addr admin_only redeemed_only conn ≡ err unauthorized)
          ⊎ ((s : Peer) × (get_session addr admin_only redeemed_only conn ≡ ok s)))
unfolding get_session Peers.get_from_ip
get_session_iff net conn none a r w =
    ((λ s. (λ h. ground arith, λ (p, i, e, _, _). ground arith)), inl refl)
get_session_iff net conn (some addr) a r w = (
  (λ s. (
    (λ h. elim (Option-cases (find (λ (p : PeerRow). p.ip == addr) conn.peers)) [
      | inl missing ↦ ground arith
      | inr (p, found) ↦
          let (i, e) = find-some (λ (x : PeerRow). x.ip == addr) conn.peers found in
          let (may, same) =
            (check_peer_iff a r p s).0 (admitted_ok a r p s (ground (arith, found))) in
          (p, i, ap some (sym ((==_iff p.ip addr).0 e)), may, same)
    ]),
    λ (p, i, e, may, same).
        let here : p.ip ≡ addr = ground arith in
        let found : find (λ (x : PeerRow). x.ip == addr) conn.peers ≡ some p =
          subst (λ k. find (λ (x : PeerRow). x.ip == k) conn.peers ≡ some p) here
            (find-key (λ (x : PeerRow). x.ip) conn.peers p w.members.ips i) in
        let passed = (check_peer_iff a r p s).1 (may, same) in ground (arith, found, passed),
  )),
  settled (Peers.get_from_ip addr conn >>= check_peer a r),
)
  where
    settled :
        (m : Result Peer)
        → (or_unauthorized m ≡ err unauthorized) ⊎ ((s : Peer) × (or_unauthorized m ≡ ok s))
    settled (ok s) = inr (s, refl)
    settled (err e) = inl refl
