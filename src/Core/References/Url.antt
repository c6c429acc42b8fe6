-- ===== src/Core/References/Url.antt =====
-- The `url` crate as the source uses it.
use odp_rust.Prelude.{Bool, Option, Result, ◌==◌, nat_eq, ◌&&◌}
use odp_rust.Prelude.Text.{Text}
use odp_rust.Core.Addresses.{IpAddr, v4_addr, v6_addr}

pub data Host : Type 0 where
  domain : Text → Host
  ip : IpAddr → Host

-- `is_loopback` of the standard library.
abbrev pub is_loopback : IpAddr → Bool
is_loopback (v4_addr a b c d) = a == 127
is_loopback (v6_addr s0 s1 s2 s3 s4 s5 s6 s7) =
    s0 == 0 && s1 == 0 && s2 == 0 && s3 == 0 && s4 == 0 && s5 == 0 && s6 == 0 && s7 == 1

-- `Url` with the operations that the source calls; a parse error is its message.
pub record UrlLib : Type 1 where
  pub Url : Type 0
  pub parse : Text → Result Text Url
  pub join : Url → Text → Result Text Url
  pub username : Url → Text
  pub password : Url → Option Text
  pub fragment : Url → Option Text
  pub host : Url → Option Host
  pub scheme : Url → Text
  pub origin : Url → Text
  pub as_str : Url → Text
