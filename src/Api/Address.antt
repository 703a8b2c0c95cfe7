-- ===== src/Api/Address.antt =====
-- backend/src/shared/requests/client_address.py
pub mod Network
use gamely.Base.{ℕ, ◌-◌, ◌%◌, ◌^◌, Text, Option, none, some, codes}

-- An address as a number, of 32 or of 128 bits.
pub data IpAddress : Type 0 where
  v4 v6 : ℕ → IpAddress

-- The module `ipaddress`: its parser, with `none` for the `ValueError`, and the texts of addresses.
-- Scope ids of IPv6 addresses, which it keeps aside of the number, are not modelled.
pub record IpAddresses : Type 0 where
  pub ip_address : Text → Option IpAddress
  pub v4_text : ℕ → Text
  pub v6_text : ℕ → Text

-- `IPv6Network(f"{address}/64", strict=False).network_address`
unfoldable pub network_address : ℕ → ℕ
network_address n = n - n % 2 ^ 64

module _ (ip : IpAddresses) where
  abbrev pub address_text : Text → Option IpAddress → Text
  address_text host none = host
  address_text host (some (v6 n)) = ip.v6_text (network_address n)
  address_text host (some (v4 n)) = ip.v4_text n

  -- `client_address`, on the host of `request.client`, if there is one.
  unfoldable pub client_address : Option Text → Text
  client_address none = codes "unknown"
  client_address (some host) = address_text host (ip.ip_address host)
