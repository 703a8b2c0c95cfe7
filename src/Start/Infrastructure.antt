-- ===== src/Start/Infrastructure.antt =====
-- backend/src/infrastructure/services.py: `InfrastructureServices`. Its clients are not part of the
-- repository, so that they are an interface.
use gamely.Base.{Bool, Option, none, some, if◌then◌else◌}
use gamely.Errors.{Exec, runtime_error, pure, raise, gets, ◌>>=◌, ◌>>◌}

pub record Clients : Type 1 where
  pub State : Type 0
  pub Connection : Type 0
  pub Channel : Type 0
  pub connect_rabbitmq : Exec State Connection
  pub is_closed : Connection → State → Bool
  pub open_channel : Connection → Exec State Channel
  pub close_channel : Channel → Exec State (Unit {0})
  pub close_connection : Connection → Exec State (Unit {0})
  pub close_opensearch : Exec State (Unit {0})
  pub close_redis : Exec State (Unit {0})
  pub dispose_engine : Exec State (Unit {0})
  -- `SELECT 1` on a connection of its own
  pub select_one : Exec State (Unit {0})
  pub ping_redis : Exec State (Unit {0})
  pub ping_opensearch : Exec State Bool

pub record Services (c : Clients) : Type 0 where
  pub clients : c.State
  pub rabbitmq : Option c.Connection

module _ (c : Clients) where
  abbrev pub with_clients : {A : Type 0} → Exec c.State A → Exec (Services c) A
  with_clients m s = let (r, t) = m s.clients in (r, record s { clients = t })

  abbrev set_rabbitmq : c.Connection → Exec (Services c) (Unit {0})
  set_rabbitmq k s = pure tt (record s { rabbitmq = some k })

  -- `InfrastructureServices.connect`
  unfoldable pub connect : Exec (Services c) (Unit {0})
  connect = with_clients c.connect_rabbitmq >>= set_rabbitmq

  abbrev close_rabbitmq : Option c.Connection → Exec (Services c) (Unit {0})
  close_rabbitmq none = pure tt
  close_rabbitmq (some k) = with_clients (c.close_connection k)

  -- `InfrastructureServices.close`
  unfoldable pub close : Exec (Services c) (Unit {0})
  close = do
    connection ← gets Services.rabbitmq
    close_rabbitmq connection
    with_clients c.close_opensearch
    with_clients c.close_redis
    with_clients c.dispose_engine

  abbrev probe_channel : c.Connection → Exec (Services c) (Unit {0})
  probe_channel k = do
    shut ← gets (λ s. c.is_closed k s.clients)
    if shut
        then raise runtime_error
        else do channel ← with_clients (c.open_channel k); with_clients (c.close_channel channel)

  abbrev probe_rabbitmq : Option c.Connection → Exec (Services c) (Unit {0})
  probe_rabbitmq none = raise runtime_error
  probe_rabbitmq (some k) = probe_channel k

  -- `InfrastructureServices.ready`
  unfoldable pub ready : Exec (Services c) (Unit {0})
  ready = do
    with_clients c.select_one
    with_clients c.ping_redis
    answered ← with_clients c.ping_opensearch
    if answered
        then (do connection ← gets Services.rabbitmq; probe_rabbitmq connection)
        else raise runtime_error
