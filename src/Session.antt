-- ===== src/Session.antt =====
-- `handle_connection` of src/server/connection.rs from the upgrade to the select loop: the steps of one
-- connection, put together.
pub mod Laws
use shrimpwisp.Prelude.{ℕ}
use shrimpwisp.Prelude.{none, some}
use shrimpwisp.Prelude.{List}
use shrimpwisp.Prelude.{Bool}
use shrimpwisp.Config.{ServerConfig}
use shrimpwisp.Net.{IpAddr}
use shrimpwisp.Backend.{BackendWriter}
use shrimpwisp.Dns.{DnsCache}
use shrimpwisp.Upgrade.{Http, Request, Upgraded, handle_ws_upgrade}
use shrimpwisp.Security.RealIp.{client_ip}
use shrimpwisp.Auth.{Crypto}
use shrimpwisp.Auth.Handshake.{
  Incoming, Written, Outcome, accepted, rejected, client_closed, read_failed, handshake,
}
use shrimpwisp.Conn.Connect.{Resolver, Circumstances}
use shrimpwisp.Conn.Loop.{Loop, enter}

-- A connection at the top of its loop, with what was written to the client before.
pub record Session (S : Type 0) : Type 0 where
  pub client_ip : IpAddr
  pub written : List Written
  pub loop : Loop S

-- How the steps before the loop end: no upgrade, no handshake, or the loop.
pub data Opening (S : Type 0) : Type 0 where
  upgrade_failed : Opening S
  turned_away : Outcome → List Written → Opening S
  entered : Session S → Opening S

-- What comes from outside: the other side's address, the networks of `trusted_proxies`, the frames of
-- the client up to the end of the handshake, the DNS cache, the time, and what the resolver meets.
pub record Surroundings : Type 0 where
  pub peer : IpAddr
  pub trusted_proxies : List (IpAddr → Bool)
  pub frames : List Incoming
  pub dns : DnsCache
  pub now : ℕ
  pub at : Circumstances

module _ (http : Http) (crypto : Crypto) (w : BackendWriter) (config : ServerConfig)
    (net : Resolver) where
  open w use {Sock}

  abbrev pub begin : Surroundings → IpAddr → Outcome → List Written → Opening Sock
  begin e ip (accepted deferred) written = entered (record {
    client_ip = ip;
    written = written;
    loop = enter w config net e.dns e.now e.at deferred;
  })
  begin e ip (rejected reason) written = turned_away (rejected reason) written
  begin e ip client_closed written = turned_away client_closed written
  begin e ip read_failed written = turned_away read_failed written

  -- Steps 1, 2, 5 and 6, the last up to the loop.
  unfoldable pub after_upgrade : Surroundings → Upgraded http → Opening Sock
  unfolding client_ip handshake enter
  after_upgrade e u =
      let h : Outcome × List Written = handshake crypto config u.is_v2 e.frames in
      begin e (client_ip net.parse_ip config e.peer e.trusted_proxies u.headers) h.0 h.1

  unfoldable pub handle_connection : Surroundings → List (Request http) → Opening Sock
  unfolding handle_ws_upgrade after_upgrade
  handle_connection e requests = elim (handle_ws_upgrade http config requests) [
    | none ↦ upgrade_failed
    | some u ↦ after_upgrade e u
  ]
