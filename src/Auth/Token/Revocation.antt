-- ===== src/Auth/Token/Revocation.antt =====
-- `_revoke_family`, backend/src/features/auth/token/token_service.py.
use gamely.Base.{
  ◌≡◌, refl, ◌∙◌, ap, none, Text, text_eq, [], ◌∷◌, ◌++◌, List, Bool, contains, arith,
  if◌then◌else◌, text_eq_refl,
}
use gamely.Base.Uuid.{Uuid}
use gamely.Errors.{returns}
use gamely.Redis.{Reply, Command, pipeline_from, single}
use gamely.Redis.Documented.{Documented, Keyspace, drop, perform, on_smembers, on_srem}
use gamely.Redis.Removal.{on_srem-other, on_srem-succeeds}
use gamely.Redis.Sets.{IsSetOf, without, srem-IsSetOf}
use gamely.Outside.{Outside, World}
use gamely.Settings.{Settings}
use gamely.Auth.Token.{
  refresh_key, reuse_key, family_key, sessions_key, revoke_digests, revoke_pipeline, revoke_family,
}
use gamely.Auth.Token.Keys.{
  family_key-eq, refresh_ne_family, reuse_ne_family, refresh_ne_reuse, reuse_ne_refresh,
  family_ne_refresh, family_ne_reuse, refresh_ne_sessions, reuse_ne_sessions, family_ne_sessions,
  sessions_ne_refresh, sessions_ne_reuse, sessions_ne_family, refresh_key-eq, reuse_key-eq,
}

-- The keys without the tokens of these digests, used or not.
abbrev forget : List Text → Keyspace → Keyspace
forget [] ks = ks
forget (d ∷ ds) ks = forget ds (drop (reuse_key d) (drop (refresh_key d) ks))

forget-refresh :
    (ds : List Text) (ks : Keyspace) (d : Text)
    → forget ds ks (refresh_key d) ≡ (if contains ds d then none else ks (refresh_key d))
forget-refresh [] ks d = refl
forget-refresh (x ∷ xs) ks d = ground (
  arith,
  forget-refresh xs (drop (reuse_key x) (drop (refresh_key x) ks)) d,
  refresh_key-eq x d,
  reuse_ne_refresh x d,
)

forget-reuse :
    (ds : List Text) (ks : Keyspace) (d : Text)
    → forget ds ks (reuse_key d) ≡ (if contains ds d then none else ks (reuse_key d))
forget-reuse [] ks d = refl
forget-reuse (x ∷ xs) ks d = ground (
  arith,
  forget-reuse xs (drop (reuse_key x) (drop (refresh_key x) ks)) d,
  reuse_key-eq x d,
  refresh_ne_reuse x d,
)

forget-sessions :
    (ds : List Text) (ks : Keyspace) (u : Uuid)
    → forget ds ks (sessions_key u) ≡ ks (sessions_key u)
forget-sessions [] ks u = refl
forget-sessions (x ∷ xs) ks u = ground (
  arith,
  forget-sessions xs (drop (reuse_key x) (drop (refresh_key x) ks)) u,
  refresh_ne_sessions u x,
  reuse_ne_sessions u x,
)

-- The keys before the last command of the pipeline, and after it.
before_srem : Uuid → Text → List Text → Keyspace → Keyspace
before_srem u f ds ks = drop (family_key u f) (forget ds ks)

before_srem-sessions :
    (u : Uuid) (f : Text) (ds : List Text) (ks : Keyspace)
    → before_srem u f ds ks (sessions_key u) ≡ ks (sessions_key u)
unfolding before_srem
before_srem-sessions u f ds ks = rw (family_ne_sessions u u f) (forget-sessions ds ks u)

pub revoked : Uuid → Text → List Text → Keyspace → Keyspace
unfolding before_srem
revoked u f ds ks =
    let ks' = before_srem u f ds ks in (on_srem (sessions_key u) f (ks' (sessions_key u)) ks').1

module _ (collides : List Text → Text → Bool) where
  perform-revoke_digests :
      (ds : List Text) (rest : List Command) (ks : Keyspace)
      → perform collides (pipeline_from (revoke_digests ds ++ rest) Reply.ok) ks
        ≡ perform collides (pipeline_from rest Reply.ok) (forget ds ks)
  perform-revoke_digests [] rest ks = refl
  perform-revoke_digests (d ∷ ds) rest ks =
      perform-revoke_digests ds rest (drop (reuse_key d) (drop (refresh_key d) ks))

  -- The pipeline succeeds where the two sets are sets, and leaves `revoked`.
  pub perform-revoke_pipeline :
      (u : Uuid) (f : Text) (ds fs : List Text) (ks : Keyspace)
      → on_smembers (ks (sessions_key u)) ≡ Reply.array fs
      → perform collides (revoke_pipeline u f ds) ks ≡ (Reply.ok, revoked u f ds ks)
  unfolding revoke_pipeline revoked
  perform-revoke_pipeline u f ds fs ks h =
      perform-revoke_digests ds _ ks
      ∙ ap (λ (r : Reply). (r, revoked u f ds ks))
          (on_srem-succeeds (sessions_key u) f (before_srem u f ds ks (sessions_key u))
            (before_srem u f ds ks) fs (ap on_smembers (before_srem-sessions u f ds ks) ∙ h))

module _ (u : Uuid) (f : Text) (ds : List Text) (ks : Keyspace) where
  -- The digests of the family name no token any more.
  pub revoked-refresh :
      (d : Text)
      → revoked u f ds ks (refresh_key d) ≡ (if contains ds d then none else ks (refresh_key d))
  unfolding revoked
  revoked-refresh d =
      on_srem-other (sessions_key u) f (before_srem u f ds ks (sessions_key u))
        (before_srem u f ds ks) (refresh_key d) (sessions_ne_refresh u d)
      ∙ unfold before_srem in rw (family_ne_refresh u f d) (forget-refresh ds ks d)

  pub revoked-reuse :
      (d : Text)
      → revoked u f ds ks (reuse_key d) ≡ (if contains ds d then none else ks (reuse_key d))
  unfolding revoked
  revoked-reuse d =
      on_srem-other (sessions_key u) f (before_srem u f ds ks (sessions_key u))
        (before_srem u f ds ks) (reuse_key d) (sessions_ne_reuse u d)
      ∙ unfold before_srem in rw (family_ne_reuse u f d) (forget-reuse ds ks d)

  pub revoked-family : revoked u f ds ks (family_key u f) ≡ none
  unfolding revoked
  revoked-family =
      on_srem-other (sessions_key u) f (before_srem u f ds ks (sessions_key u))
        (before_srem u f ds ks) (family_key u f) (sessions_ne_family u u f)
      ∙ unfold before_srem in rw (text_eq_refl (family_key u f))

  forget-family :
      (es : List Text) (k : Keyspace) (g : Text) → forget es k (family_key u g) ≡ k (family_key u g)
  forget-family [] k g = refl
  forget-family (x ∷ xs) k g = ground (
    arith,
    forget-family xs (drop (reuse_key x) (drop (refresh_key x) k)) g,
    refresh_ne_family u g x,
    reuse_ne_family u g x,
  )

  -- Another family of the user keeps its set.
  pub revoked-other_family :
      (g : Text)
      → revoked u f ds ks (family_key u g) ≡ (if text_eq f g then none else ks (family_key u g))
  unfolding revoked
  revoked-other_family g =
      on_srem-other (sessions_key u) f (before_srem u f ds ks (sessions_key u))
        (before_srem u f ds ks) (family_key u g) (sessions_ne_family u u g)
      ∙ unfold before_srem in rw (family_key-eq u f g) (rw (forget-family ds ks g))

  -- The family leaves the user's set.
  pub revoked-IsSetOf :
      (fs : List Text)
      → IsSetOf fs (ks (sessions_key u))
      → IsSetOf (without f fs) (revoked u f ds ks (sessions_key u))
  unfolding revoked
  revoked-IsSetOf fs h =
      srem-IsSetOf (sessions_key u) f (before_srem u f ds ks) fs
        (before_srem u f ds ks (sessions_key u)) refl
        (ap on_smembers (before_srem-sessions u f ds ks) ∙ h)

  -- The user's families are a set still.
  pub revoked-sessions :
      (fs : List Text)
      → on_smembers (ks (sessions_key u)) ≡ Reply.array fs
      → (gs : List Text) × (on_smembers (revoked u f ds ks (sessions_key u)) ≡ Reply.array gs)
  revoked-sessions fs h = (without f fs, revoked-IsSetOf fs h)

module _ (o : Outside) (D : Documented o.redis) (u : Uuid) (f : Text) (w : World o) where
  -- The family and the user's families are sets, and these are the family's digests.
  pub record Holds (ds fs : List Text) : Type 0 where
    pub digests : on_smembers (D.view w.server (family_key u f)) ≡ Reply.array ds
    pub families : on_smembers (D.view w.server (sessions_key u)) ≡ Reply.array fs

  pub revoke_family-eq :
      (settings : Settings) (ds fs : List Text)
      → Holds ds fs
      → let (r, w') = revoke_family o settings u f w in
        (r ≡ returns tt) × (D.view w'.server ≡ revoked u f ds (D.view w.server))
  unfolding revoke_family
  revoke_family-eq settings ds fs h =
      let s1 = D.after (single (Command.smembers (family_key u f))) w.server in
      let same : D.view s1 ≡ D.view w.server =
        D.view-after (single (Command.smembers (family_key u f))) w.server in
      let e = perform-revoke_pipeline D.collides u f ds fs (D.view w.server) h.families in
      rw (D.run_lem, h.digests, D.run_lem, same, e)
        (refl, D.view-after (revoke_pipeline u f ds) s1 ∙ rw (same, e))
