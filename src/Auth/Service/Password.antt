-- ===== src/Auth/Service/Password.antt =====
-- The change of a password in `reset_password` and `change_password`,
-- backend/src/features/auth/auth_service.py.
use gamely.Base.{◌≡◌, refl, ◌∙◌, ap, none, some, Text, List, [], ◌∷◌, contains, true, suc, arith}
use gamely.Base.Uuid.{Uuid}
use gamely.Errors.{returns}
use gamely.Database.{User, Statement}
use gamely.Database.Documented as Db
use gamely.Redis.{Reply, Script, checked}
use gamely.Redis.Documented.{Documented, on_smembers}
use gamely.Auth.Repository.{write_user, commit}
use gamely.Auth.Service.{set_password}
use gamely.Auth.Service.Keeps.{tables, Keeps, pure-Keeps, bind-Keeps, command-Keeps}
use gamely.Auth.Token.{
  refresh_key, family_key, sessions_key, revoke_family, revoke_families, revoke_all, members_of,
}
use gamely.Auth.Token.Everywhere.{AllSets, revoke_all-ends}
use gamely.Outside.{Outside, World, redis}
use gamely.Settings.{Settings}

module _ (o : Outside) (E : Db.Documented o.database) (settings : Settings) where
  redis-Keeps : (sc : Script) → Keeps E (redis o sc)
  redis-Keeps sc = record { kept = λ w. ground arith }

  checked-Keeps : (r : Reply) → Keeps {o = o} E (checked r)
  checked-Keeps r = record { kept = λ w. ground arith }

  revoke_family-Keeps : (u : Uuid) (f : Text) → Keeps E (revoke_family o settings u f)
  unfolding revoke_family
  revoke_family-Keeps u f = bind-Keeps E _ _ (command-Keeps E _) (λ found.
      bind-Keeps E _ _ (redis-Keeps _)
        (λ reply. bind-Keeps E _ _ (checked-Keeps reply) (λ r. pure-Keeps E tt)))

  revoke_families-Keeps : (u : Uuid) (fs : List Text) → Keeps E (revoke_families o settings u fs)
  unfolding revoke_families
  revoke_families-Keeps u [] = pure-Keeps E tt
  revoke_families-Keeps u (f ∷ rest) =
      bind-Keeps E _ _ (revoke_family-Keeps u f) (λ done. revoke_families-Keeps u rest)

  revoke_all-Keeps : (u : Uuid) → Keeps E (revoke_all o settings u)
  unfolding revoke_all
  revoke_all-Keeps u = bind-Keeps E _ _ (command-Keeps E _) (λ found.
      bind-Keeps E _ _ (revoke_families-Keeps u (members_of found))
        (λ done. bind-Keeps E _ _ (command-Keeps E _) (λ r. pure-Keeps E tt)))

  module _ (user : User) (password : Text) (w : World o) where
    -- The user with the new hash, and the world in which it is committed.
    abbrev pub renewed : User
    renewed = record user { password_hash = some (o.hash_password w.draws password) }

    abbrev committed : World o
    committed = record w {
      draws = suc w.draws;
      session = E.after Statement.commit (E.after (Statement.write_user renewed) w.session);
    }

    set_password-eq :
        set_password o settings user password w ≡ revoke_all o settings user.id committed
    unfolding set_password write_user commit
    set_password-eq = rw (E.run_lem, E.run_lem) refl

    -- The tables after the commit hold the renewed user.
    committed-tables : tables o E committed ≡ record (E.view w.session).current {
      users = Db.replace_user renewed (E.view w.session).current.users;
    }
    committed-tables =
        ap (λ (t : Db.Transaction). t.committed)
          (E.view-after Statement.commit (E.after (Statement.write_user renewed) w.session))
        ∙ ap (λ (t : Db.Transaction). t.current)
            (E.view-after (Statement.write_user renewed) w.session)

    -- On a documented Redis and a documented database, where the user's families are a set and each of
    -- them is a set of digests, setting a password returns. The tables that others see then hold the
    -- user with the hash of that password and are otherwise those of the transaction, no token whose
    -- digest stands in one of the families is live, and the user has no families.
    pub set_password-ends_sessions :
        (D : Documented o.redis) (fs : List Text) (f : Text) (ds : List Text) (d : Text)
        → on_smembers (D.view w.server (sessions_key user.id)) ≡ Reply.array fs
        → AllSets user.id fs (D.view w.server)
        → contains fs f ≡ true
        → on_smembers (D.view w.server (family_key user.id f)) ≡ Reply.array ds
        → contains ds d ≡ true
        → let (r, w') = set_password o settings user password w in
          (r ≡ returns tt)
          × (tables o E w' ≡ record (E.view w.session).current {
            users = Db.replace_user renewed (E.view w.session).current.users;
          })
          × (D.view w'.server (refresh_key d) ≡ none)
          × (D.view w'.server (sessions_key user.id) ≡ none)
    set_password-ends_sessions D fs f ds d h sets member set held =
        let (ended, dead, none_left) =
          revoke_all-ends o D settings user.id fs committed f ds d h sets member set held in
        rw set_password-eq
          (ended, (revoke_all-Keeps user.id).kept committed ∙ committed-tables, dead, none_left)
