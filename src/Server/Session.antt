-- ===== src/Server/Session.antt =====
-- server/src/main.rs: who sends a request. A session is a look at the database by the address of
-- the sender; every failure is answered as Unauthorized.
pub mod Laws
use innernet.Prelude.{Bool, true, false, not, ◌&&◌, ◌||◌, Option, none, some, if◌then◌else◌}
use innernet.Net.{IpAddr, SocketAddr}
use innernet.Shared.{Peer}
use innernet.Server.Db.Peers
use innernet.Server.Db.{unauthorized, Result, ok, err, ◌>>=◌, Connection}

-- The closure of `get_session` on an address that is known.
abbrev pub check_peer : Bool → Bool → Peer → Result Peer
check_peer admin_only redeemed_only peer =
    if not peer.is_disabled
      && ((not admin_only || peer.is_admin) && (not redeemed_only || peer.is_redeemed))
    then ok peer
    else err unauthorized

-- `.map(|session| session.ok()).flatten().ok_or_else(Unauthorized)`
abbrev pub or_unauthorized : {A : Type 0} → Result A → Result A
or_unauthorized (ok a) = ok a
or_unauthorized (err e) = err unauthorized

unfoldable pub get_session : Option IpAddr → Bool → Bool → Connection → Result Peer
get_session none admin_only redeemed_only conn = err unauthorized
get_session (some addr) admin_only redeemed_only conn =
    or_unauthorized (Peers.get_from_ip addr conn >>= check_peer admin_only redeemed_only)

abbrev pub remote_ip : Option SocketAddr → Option IpAddr
remote_ip none = none
remote_ip (some addr) = some addr.ip

unfoldable pub with_session : Option SocketAddr → Connection → Result Peer
unfolding get_session
with_session addr conn = get_session (remote_ip addr) false true conn

unfoldable pub with_admin_session : Option SocketAddr → Connection → Result Peer
unfolding get_session
with_admin_session addr conn = get_session (remote_ip addr) true true conn

unfoldable pub with_unredeemed_session : Option SocketAddr → Connection → Result Peer
unfolding get_session
with_unredeemed_session addr conn = get_session (remote_ip addr) false false conn
