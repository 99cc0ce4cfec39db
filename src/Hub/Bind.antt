-- ===== src/Hub/Bind.antt =====
-- src/config.rs: `HubConfig::validate_bind_security`. The parser of addresses is a parameter.
pub mod Exposure
use sentinalysis.Base.{
  Bool, Option, Text, codes, false, if◌then◌else◌, leb, none, not, some, text_eq, true, ℕ, ◌&&◌,
  ◌==◌, ◌||◌,
}
use sentinalysis.Base.Results.{Result, err, ok}

-- Four octets, or the 128 bits of an IPv6 address.
pub data IpAddr : Type 0 where
  v4 : (o1 o2 o3 o4 : ℕ) → IpAddr
  v6 : ℕ → IpAddr

-- The fields of the configuration that the guard reads.
pub record HubConfig : Type 0 where
  pub grpc_host : Text
  pub rest_host : Text
  pub tls_enabled : Bool

-- The field and the host that were refused.
pub data BindError : Type 0 where
  not_an_ip public_address : (name host : Text) → BindError

abbrev pub localhost : Text
localhost = codes "localhost"

unfoldable pub parse_host : (Text → Option IpAddr) → Text → Option IpAddr
unfolding text_eq
parse_host parse host = if text_eq host localhost then some (v4 127 0 0 1) else parse host

-- `IpAddr::is_loopback`: 127.0.0.0/8 or ::1.
abbrev pub is_loopback : IpAddr → Bool
is_loopback (v4 o1 o2 o3 o4) = o1 == 127
is_loopback (v6 n) = n == 1

unfoldable pub is_tailscale : IpAddr → Bool
is_tailscale (v4 o1 o2 o3 o4) = o1 == 100 && (leb 64 o2 && leb o2 127)
is_tailscale (v6 n) = false

-- Whether the loop goes on, having warned or not, or returns an error.
abbrev pub check_ip : Text → Text → Bool → IpAddr → Result BindError Bool
unfolding is_tailscale
check_ip name host warned ip =
    if is_loopback ip
    then ok warned
    else if is_tailscale ip
    then ok true
    else err (public_address name host)

abbrev pub check_parsed : Text → Text → Bool → Option IpAddr → Result BindError Bool
unfolding is_tailscale
check_parsed name host warned (some ip) = check_ip name host warned ip
check_parsed name host warned none =
    if not (text_eq host localhost) then err (not_an_ip name host) else ok warned

-- A round of the loop.
unfoldable pub check_host :
    (Text → Option IpAddr) → Text → Text → Result BindError Bool → Result BindError Bool
unfolding parse_host is_tailscale
check_host parse name host (err e) = err e
check_host parse name host (ok warned) = check_parsed name host warned (parse_host parse host)

-- `ok warned` is `Ok(())`, with a warning in the log or none.
unfoldable pub validate_bind_security : (Text → Option IpAddr) → HubConfig → Result BindError Bool
unfolding check_host
validate_bind_security parse hub =
    if hub.tls_enabled
    then ok false
    else check_host parse (codes "rest_host") hub.rest_host
        (check_host parse (codes "grpc_host") hub.grpc_host (ok false))
