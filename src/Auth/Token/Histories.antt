-- ===== src/Auth/Token/Histories.antt =====
-- Histories of one user's refresh tokens, backend/src/features/auth/token/token_service.py.
use mathlib.Core.Path.{subst}
use gamely.Base.{ℕ, ◌≡◌, refl, sym, ap, Bool, Option, none, some, List, [], Text, arith}
use gamely.Base.Uuid.{Uuid}
use gamely.Errors.{returns}
use gamely.Redis.Documented.{Documented, Keyspace, perform}
use gamely.Redis.Sets.{IsSetOf}
use gamely.Outside.{Outside, World}
use gamely.Settings.{Settings}
use gamely.Auth.Token.{
  refresh_key, reuse_key, family_key, session_value, issue_pipeline, revoke_pipeline, rotate_script,
  refresh_seconds, revoke_all,
}
use gamely.Auth.Token.Revocation.{perform-revoke_pipeline}
use gamely.Auth.Token.Rotation.{text_entry}
use gamely.Auth.Token.Everywhere.{AllSets, Doomed, revoke_all-Doomed}
use gamely.Auth.Token.Tracked.{IsTracked, issued-IsTracked}
use gamely.Auth.Token.Kept.{Fewer, Fewer-IsTracked, rotate_script-Fewer, revoked-IsTracked}

module _ (u : Uuid) (collides : List Text → Text → Bool) (settings : Settings) where
  -- One step of the server's keys: the user gets a token, a token of anyone is presented, a family of the
  -- user is revoked with the digests that it has then, or something else happens that leaves the user's
  -- sets and makes no token of the user live.
  pub data TokenStep : Keyspace → Keyspace → Type 0 where
    issue :
        (ks : Keyspace) (f d : Text)
        → TokenStep ks (perform collides (issue_pipeline settings u f d) ks).1
    rotate :
        (ks : Keyspace) (d : Text)
        → TokenStep ks
            (perform collides
              (rotate_script (refresh_key d) (reuse_key d) (refresh_seconds settings))
              ks).1
    revoke :
        (ks : Keyspace) (f : Text) (ds : List Text)
        → IsSetOf ds (ks (family_key u f))
        → TokenStep ks (perform collides (revoke_pipeline u f ds) ks).1
    elsewhere : (ks ks' : Keyspace) → Fewer u ks ks' → TokenStep ks ks'

  pub data TokenSteps : Keyspace → Keyspace → Type 0 where
    begin : (ks : Keyspace) → TokenSteps ks ks
    then_step :
        (ks ks' ks'' : Keyspace) → TokenSteps ks ks' → TokenStep ks' ks'' → TokenSteps ks ks''

  issue-IsTracked :
      (ks : Keyspace) (f d : Text)
      → IsTracked u ks
      → IsTracked u (perform collides (issue_pipeline settings u f d) ks).1
  unfolding issue_pipeline
  issue-IsTracked ks f d t = issued-IsTracked u ks settings f d t

  TokenStep-IsTracked : (ks ks' : Keyspace) → TokenStep ks ks' → IsTracked u ks → IsTracked u ks'
  TokenStep-IsTracked _ _ (issue ks f d) t = issue-IsTracked ks f d t
  TokenStep-IsTracked _ _ (rotate ks d) t =
      Fewer-IsTracked u ks _ (rotate_script-Fewer u collides d (refresh_seconds settings) ks) t
  TokenStep-IsTracked _ _ (revoke ks f ds set) t =
      subst (IsTracked u)
        (sym (ap (λ p. p.1) (perform-revoke_pipeline collides u f ds t.families ks t.sessions)))
        (revoked-IsTracked u f ds ks t set)
  TokenStep-IsTracked _ _ (elsewhere ks ks' less) t = Fewer-IsTracked u ks ks' less t

  TokenSteps-IsTracked : (ks ks' : Keyspace) → TokenSteps ks ks' → IsTracked u ks → IsTracked u ks'
  TokenSteps-IsTracked _ _ (begin ks) t = t
  TokenSteps-IsTracked _ _ (then_step ks ks' ks'' steps one) t =
      TokenStep-IsTracked ks' ks'' one (TokenSteps-IsTracked ks ks' steps t)

-- A server with nothing on it.
abbrev pub empty_keys : Keyspace
empty_keys _ = none

empty_keys-IsTracked : (u : Uuid) → IsTracked u empty_keys
empty_keys-IsTracked u = record {
  families = [];
  sessions = refl;
  digests = λ f. [];
  family = λ f. refl;
  listed = λ d f left h. ground (arith, h);
}

IsTracked-AllSets : (u : Uuid) (ks : Keyspace) (t : IsTracked u ks) → AllSets u t.families ks
IsTracked-AllSets u ks t = record {
  family = λ f h. (t.digests f, t.family f);
  user = (t.families, t.sessions);
}

module _ (o : Outside) (D : Documented o.redis) (settings : Settings) (u : Uuid) (w : World o) where
  -- On a documented Redis whose keys came from none by any steps, tokens issued to the user, tokens
  -- presented, used or not, families revoked, and other steps that leave the user's sets and make no token
  -- of the user live, `revoke_all` returns, and every token of the user that was live is not live then.
  pub revoke_all-ends_every :
      TokenSteps u D.collides settings empty_keys (D.view w.server)
      → let (r, w') = revoke_all o settings u w in
        (r ≡ returns tt)
        × ((d f : Text) (left : Option ℕ)
            → D.view w.server (refresh_key d) ≡ some (text_entry (session_value u f) left)
            → D.view w'.server (refresh_key d) ≡ none)
  revoke_all-ends_every steps =
      let t =
        TokenSteps-IsTracked u D.collides settings empty_keys (D.view w.server) steps
          (empty_keys-IsTracked u) in
      let (ended, ends, none_left) =
        revoke_all-Doomed o D settings u t.families w t.sessions
          (IsTracked-AllSets u (D.view w.server) t) in
      (
        ended,
        λ d f left live.
            let (a, b) = t.listed d f left live in
            ends d (Doomed.listed f (t.digests f) a (t.family f) b),
      )
