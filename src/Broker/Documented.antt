-- ===== src/Broker/Documented.antt =====
-- A connection that is up: every action succeeds, and is the next one in its history.
use gamely.Base.{◌≡◌, refl, true, List, ◌∷◌}
use gamely.Errors.{returns}
use gamely.Broker.{Broker, Action}

pub record Documented (b : Broker) : Type 0 where
  -- the actions so far, the latest first
  pub history : b.Connection → List Action
  pub after : Action → b.Connection → b.Connection
  pub run_lem : (a : Action) (c : b.Connection) → b.run a c ≡ (returns tt, after a c)
  pub history-after : (a : Action) (c : b.Connection) → history (after a c) ≡ a ∷ history c

abbrev pub local_broker : Broker
local_broker = record {
  Connection = List Action;
  is_connected = λ _. true;
  run = λ a c. (returns tt, a ∷ c);
}

abbrev pub local_broker-Documented : Documented local_broker
local_broker-Documented = record {
  history = λ c. c;
  after = λ a c. a ∷ c;
  run_lem = λ a c. refl;
  history-after = λ a c. refl;
}
