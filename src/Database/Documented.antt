-- ===== src/Database/Documented.antt =====
-- The documented effect of the session's statements: a transaction over two tables whose unique
-- columns are the user's address and the identity's provider with its subject.
use gamely.Base.{
  ◌≡◌, refl, Bool, ◌&&◌, Option, none, some, List, [], ◌∷◌, Text, text_eq, if◌then◌else◌,
}
use gamely.Base.Uuid.{Uuid}
use gamely.Errors.{Outcome, returns, raises, integrity_error}
use gamely.Database.{Database, Statement, Rows, User, OauthIdentity}

pub record Tables : Type 0 where
  pub users : List User
  pub identities : List OauthIdentity

-- `current` is what the transaction sees, `committed` what others see.
pub record Transaction : Type 0 where
  pub committed : Tables
  pub current : Tables

abbrev pub find_user : Text → List User → Option User
find_user e [] = none
find_user e (u ∷ us) = if text_eq u.email e then some u else find_user e us

abbrev pub find_id : Uuid → List User → Option User
find_id i [] = none
find_id i (u ∷ us) = if text_eq u.id i then some u else find_id i us

abbrev same_identity : Text → Text → OauthIdentity → Bool
same_identity p s x = text_eq x.provider p && text_eq x.subject s

abbrev pub find_identity : Text → Text → List OauthIdentity → Option OauthIdentity
find_identity p s [] = none
find_identity p s (x ∷ xs) = if same_identity p s x then some x else find_identity p s xs

abbrev pub replace_user : User → List User → List User
replace_user v [] = []
replace_user v (u ∷ us) = if text_eq u.id v.id then v ∷ us else u ∷ replace_user v us

abbrev pub user_rows : Option User → Rows
user_rows none = Rows.no_row
user_rows (some u) = Rows.user_row u

abbrev identity_rows : Option OauthIdentity → Rows
identity_rows none = Rows.no_row
identity_rows (some i) = Rows.identity_row i

-- The flush of a new row that breaks a unique index raises, and changes no table.
abbrev pub flush_user : User → Option User → Transaction → Outcome Rows × Transaction
flush_user u (some _) t = (raises integrity_error, t)
flush_user u none t =
    (returns Rows.no_row, record t { current = record t.current { users = u ∷ t.current.users } })

abbrev flush_identity :
    OauthIdentity → Option OauthIdentity → Transaction → Outcome Rows × Transaction
flush_identity i (some _) t = (raises integrity_error, t)
flush_identity i none t = (
  returns Rows.no_row,
  record t { current = record t.current { identities = i ∷ t.current.identities } },
)

abbrev pub step : Statement → Transaction → Outcome Rows × Transaction
step (Statement.select_user_by_email e) t = (returns (user_rows (find_user e t.current.users)), t)
step (Statement.get_user i) t = (returns (user_rows (find_id i t.current.users)), t)
step (Statement.select_identity p s) t =
    (returns (identity_rows (find_identity p s t.current.identities)), t)
step (Statement.add_user u) t = flush_user u (find_user u.email t.current.users) t
step (Statement.add_identity i) t =
    flush_identity i (find_identity i.provider i.subject t.current.identities) t
step (Statement.write_user u) t = (
  returns Rows.no_row,
  record t { current = record t.current { users = replace_user u t.current.users } },
)
step Statement.commit t = (returns Rows.no_row, record t { committed = t.current })
step Statement.rollback t = (returns Rows.no_row, record t { current = t.committed })

-- A session that is connected, and has the documented effects.
pub record Documented (d : Database) : Type 0 where
  pub view : d.Session → Transaction
  pub after : Statement → d.Session → d.Session
  pub run_lem : (c : Statement) (s : d.Session) → d.run c s ≡ ((step c (view s)).0, after c s)
  pub view-after : (c : Statement) (s : d.Session) → view (after c s) ≡ (step c (view s)).1

abbrev pub local_database : Database
local_database = record { Session = Transaction; run = step }

abbrev pub local_database-Documented : Documented local_database
local_database-Documented = record {
  view = λ t. t;
  after = λ c t. (step c t).1;
  run_lem = λ c t. refl;
  view-after = λ c t. refl;
}
