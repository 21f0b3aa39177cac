-- ===== src/Middleware/Proxy.antt =====
-- proxy.go: the address of the client, behind proxies that are trusted. package net is a parameter
-- (`Net`): addresses, networks, and the host of an address with a port. request_metadata.go.
use gateway_runtime.Prelude.{
  String, Bool, false, ◌||◌, not, List, [], ◌∷◌, Option, none, some, Result, ok, ◌>>=◌, some_or,
  str_eq, if◌then◌else◌,
}
use gateway_runtime.Text.{trim_space, split}
use gateway_runtime.Middleware.{Request, Handler}

pub record Net : Type 1 where
  pub Ip : Type 0
  pub Network : Type 0
  pub parse_ip : String → Option Ip
  pub ip_text : Ip → String
  pub parse_cidr : String → Option Network
  pub holds : Network → Ip → Bool
  pub split_host_port : String → Option String

module _ (n : Net) where
  open n use {Ip, Network, parse_ip, ip_text, parse_cidr, holds, split_host_port}

  -- the loop of `ParseTrustedProxyCIDRs`
  unfoldable pub parse_trusted_proxy_cidrs : List String → Result String (List Network)
  unfolding trim_space
  parse_trusted_proxy_cidrs [] = ok []
  parse_trusted_proxy_cidrs (raw ∷ rest) =
      let later = parse_trusted_proxy_cidrs rest in
      if str_eq (trim_space raw) ""
      then later
      else (some_or (parse_cidr (trim_space raw)) "invalid CIDR address" >>= λ network.
          later >>= λ networks. ok (network ∷ networks))

  unfoldable pub is_trusted : List Network → Ip → Bool
  is_trusted [] ip = false
  is_trusted (network ∷ rest) ip = holds network ip || is_trusted rest ip

  -- the address that a part of the header names, where it is not trusted
  abbrev pub untrusted : List Network → Option Ip → Option Ip
  untrusted cidrs none = none
  untrusted cidrs (some ip) = if is_trusted cidrs ip then none else some ip

  abbrev pub or_part : Option Ip → Option Ip → Option Ip
  or_part none earlier = earlier
  or_part (some ip) earlier = some ip

  -- The loop over the parts, which starts at the last one: a part is looked at after those behind it.
  unfoldable pub last_untrusted : List Network → List String → Option Ip
  unfolding is_trusted trim_space
  last_untrusted cidrs [] = none
  last_untrusted cidrs (part ∷ parts) =
      let later = last_untrusted cidrs parts in
      or_part later (untrusted cidrs (parse_ip (trim_space part)))

  abbrev pub host_of : String → Option String → String
  host_of remote none = remote
  host_of remote (some host) = host

  abbrev forwarded : String → Option Ip → String × String
  forwarded host none = (host, "remote-address")
  forwarded host (some ip) = (ip_text ip, "x-forwarded-for")

  abbrev behind : List Network → Request → String → Option Ip → String × String
  behind cidrs r host none = (host, "remote-address")
  behind cidrs r host (some remote) =
      if not (is_trusted cidrs remote)
      then (host, "remote-address")
      else if str_eq (r.header "X-Forwarded-For") ""
      then (host, "remote-address")
      else forwarded host (last_untrusted cidrs (split (r.header "X-Forwarded-For") ","))

  -- `ClientIdentity`: the address, and where it comes from
  unfoldable pub client_identity : List Network → Request → String × String
  unfolding is_trusted last_untrusted split
  client_identity cidrs r =
      let host = host_of r.remote_addr (split_host_port r.remote_addr) in
      behind cidrs r host (parse_ip host)

  -- `ClientIP`
  abbrev pub client_ip : List Network → Request → String
  client_ip cidrs r = (client_identity cidrs r).0

  -- `RequestMetadata`
  unfoldable pub request_metadata : {W : Type 0} → List Network → Handler W → Handler W
  unfolding client_identity trim_space
  request_metadata cidrs next r w =
      let (ip, source) = client_identity cidrs r in
      next
        (record r {
          context = record r.context {
            client_ip = ip;
            client_ip_source = source;
            cf_ray = if str_eq source "remote-address" then "" else trim_space (r.header "CF-Ray");
          };
        })
        w
