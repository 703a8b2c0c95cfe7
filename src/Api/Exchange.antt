-- ===== src/Api/Exchange.antt =====
-- FastAPI's request and response as the endpoints use them.
use Prim.Native.String.{String}
use gamely.Base.{ℕ, Bool, Option, List, [], ◌∷◌, ◌++◌, Text}
use gamely.Errors.{Exec, pure}
use gamely.Outside.{Outside, World}
use gamely.Settings.{SameSite}

pub record Cookie : Type 0 where
  pub key : String
  pub value : Text
  pub httponly : Bool
  pub secure : Bool
  pub samesite : SameSite
  pub domain : Option String
  pub path : String
  pub max_age : ℕ

-- What an endpoint does to the response that it is given.
pub data Change : Type 0 where
  set_header : String → String → Change
  set_cookie : Cookie → Change
  -- key, domain, path
  delete_cookie : String → Option String → String → Change
  set_status : ℕ → Change

-- The parts of a request that the endpoints read: the host of its client, the header `Authorization`,
-- and the refresh cookie.
pub record Request : Type 0 where
  pub client : Option Text
  pub authorization : Option Text
  pub refresh_cookie : Option Text

pub record Exchange (o : Outside) : Type 0 where
  pub world : World o
  pub response : List Change

module _ (o : Outside) where
  -- A call of a service, which does not know the response.
  abbrev pub on_world : {A : Type 0} → Exec (World o) A → Exec (Exchange o) A
  on_world m x = let (r, w) = m x.world in (r, record x { world = w })

  abbrev pub change : Change → Exec (Exchange o) (Unit {0})
  change c x = pure tt (record x { response = x.response ++ c ∷ [] })
