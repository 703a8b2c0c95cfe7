-- ===== src/Examples/Endpoints.antt =====
-- Requests to the routes, and what stands around them.
use gamely.Base.{
  ℕ, ◌+◌, ◌*◌, ◌/◌, ◌^◌, ◌≡◌, ◌↔◌, refl, ap, arith, inl, none, some, Option, [], ◌∷◌, Text, codes,
  text_eq, if◌then◌else◌,
}
use gamely.Redis.Documented.{local_redis-Documented}
use gamely.Settings.{Settings, default_settings}
use gamely.Auth.Service.{login, refresh}
use gamely.Auth.Oauth.{oauth_login}
use gamely.Api.Address.{IpAddress, v6, IpAddresses, client_address}
use gamely.Api.Address.Network.{client_address-v6}
use gamely.Api.Dto.{
  CredentialsRequest, OauthTokenRequest, ChangePasswordRequest, is_valid_credentials,
  is_valid_oauth, is_valid_change,
}
use gamely.Api.Exchange.{Request}
use gamely.Api.Routes.{
  refused, post_login, post_refresh, post_oauth_login, post_signup, post_change_password,
  post_logout_all, get_me,
}
use gamely.Api.Routes.Sessions.{opened, sessions_answered}
use gamely.Api.Routes.Refusals.{limited, after, post_signup-limited}
use gamely.Api.Routes.Guards.{IsRefused, anonymous-IsRefused}
use gamely.Outside.{World}
use gamely.Examples.{local, world, empty_world, no_keys, one_account, ann}

-- Two addresses of one network.
abbrev network : ℕ
network = 2 ^ 64 * 5

abbrev local_address : Text → Option IpAddress
local_address host =
    if text_eq host (codes "::5:0:0:0:1")
    then some (v6 (network + 1))
    else if text_eq host (codes "::5:0:0:0:2")
    then some (v6 (network + 2))
    else none

abbrev addresses : IpAddresses
addresses = record { ip_address = local_address; v4_text = λ n. n ∷ []; v6_text = λ n. n ∷ [] }

first_number : Text → ℕ
first_number [] = 0
first_number (n ∷ ns) = n

client_address-v6_example :
    (client_address addresses (some (codes "::5:0:0:0:1"))
      ≡ client_address addresses (some (codes "::5:0:0:0:2")))
    ↔ ((network + 1) / 2 ^ 64 ≡ (network + 2) / 2 ^ 64)
unfolding first_number
client_address-v6_example =
    client_address-v6 addresses (codes "::5:0:0:0:1") (codes "::5:0:0:0:2") (network + 1)
      (network + 2) (λ x y e. ap first_number e) refl refl

abbrev credentials : CredentialsRequest
credentials = record { email = ann; password = codes "correct horse" }

abbrev request : Request
request = record {
  client = some (codes "testclient");
  authorization = none;
  refresh_cookie = some (codes "token0");
}

abbrev proof : OauthTokenRequest
proof = record { id_token = codes "n1"; nonce = codes "n1" }

abbrev here : World local
here = world no_keys one_account

sessions_answered_example :
    (post_login local addresses default_settings credentials here
      ≡ opened local addresses default_settings
          (login local default_settings ann (codes "correct horse"))
          here)
    × (post_refresh local addresses default_settings request here
        ≡ opened local addresses default_settings
            (refresh local default_settings (codes "token0"))
            here)
    × (post_oauth_login local addresses default_settings (codes "apple") proof here
        ≡ opened local addresses default_settings
            (oauth_login local default_settings (codes "apple") (codes "n1") (codes "n1"))
            here)
unfolding is_valid_credentials is_valid_oauth
sessions_answered_example =
    sessions_answered local addresses default_settings credentials request b't' (codes "oken0")
      (codes "apple") proof here refl refl refl

-- One sign-up in a window.
abbrev strict : Settings
strict = record default_settings { auth_signup_limit = 1 }

abbrev later : World local
later = after local addresses strict local_redis-Documented request 1 empty_world (codes "signup")

post_signup-limited_example :
    let (answer, w) = post_signup local addresses strict credentials request later in
    (answer ≡ refused limited) × (w.session ≡ later.session) × (w.connection ≡ later.connection)
unfolding is_valid_credentials
post_signup-limited_example =
    post_signup-limited local addresses strict local_redis-Documented request 1 empty_world
      credentials refl refl (omega arith)

abbrev passwords : ChangePasswordRequest
passwords = record {
  current_password = codes "correct horse";
  new_password = codes "battery staple";
}

anonymous-IsRefused_example :
    IsRefused local addresses default_settings request here
      (post_change_password local addresses default_settings passwords request here)
    × IsRefused local addresses default_settings request here
        (post_logout_all local addresses default_settings request here)
    × IsRefused local addresses default_settings request here
        (get_me local addresses default_settings request here)
unfolding is_valid_change
anonymous-IsRefused_example =
    anonymous-IsRefused local addresses default_settings request here passwords refl (inl refl)
