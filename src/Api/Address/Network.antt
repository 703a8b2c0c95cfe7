-- ===== src/Api/Address/Network.antt =====
-- backend/src/shared/requests/client_address.py: the addresses that count as one client.
use gamely.Base.{ℕ, ◌/◌, ◌^◌, ◌≡◌, ◌↔◌, ap, Text, some, arith}
use gamely.Api.Address.{v6, IpAddresses, client_address, network_address}

network_address-eq : (n m : ℕ) → (n / 2 ^ 64 ≡ m / 2 ^ 64) ↔ (network_address n ≡ network_address m)
unfolding network_address
network_address-eq n m = (λ h. omega arith, λ h. omega arith)

module _ (ip : IpAddresses) (a b : Text) (n m : ℕ)
    (text_injective : (x y : ℕ) → ip.v6_text x ≡ ip.v6_text y → x ≡ y) where
  -- Two hosts with IPv6 addresses count as one client exactly where the addresses agree in their first
  -- 64 bits, if different addresses have different texts.
  pub client_address-v6 :
      ip.ip_address a ≡ some (v6 n)
      → ip.ip_address b ≡ some (v6 m)
      → (client_address ip (some a) ≡ client_address ip (some b)) ↔ (n / 2 ^ 64 ≡ m / 2 ^ 64)
  unfolding client_address
  client_address-v6 h k =
      rw (h, k)
        (
          λ e.
              (network_address-eq n m).1 (text_injective (network_address n) (network_address m) e),
          λ e. ap ip.v6_text ((network_address-eq n m).0 e),
        )
