-- ===== src/Auth/Token/Dead.antt =====
-- `rotate_refresh` of tokens that are not live, backend/src/features/auth/token/token_service.py.
use Prim.Native.String.{String}
use mathlib.Core.Path.{subst}
use gamely.Base.{◌≡◌, ◌≢◌, refl, sym, Bool, none, some, List, [], ◌∷◌, Text, codes, arith}
use gamely.Base.Uuid.{Uuid}
use gamely.Errors.{
  Exec, Outcome, Exception, application, make_error, unauthorized, returns, raises, cancelled,
  continue, raise, ◌>>=◌, ◌>>◌,
}
use gamely.Redis.{Reply, checked}
use gamely.Redis.Documented.{Documented, Keyspace, perform, on_get}
use gamely.Outside.{Outside, World}
use gamely.Settings.{Settings}
use gamely.Auth.Token.{
  refresh_key, reuse_key, token_digest, rotate_refresh, rotate_script, rotate_session,
  rotate_reused, result_pair, parse_session, parse_rotation, finish_rotation, refresh_seconds,
  revoke_family,
}

-- A call that does not return.
abbrev pub Fails : {A : Type 0} → Outcome A → Type 0
Fails {A} r = (a : A) → r ≢ returns a

pub continue-Fails :
    {A B : Type 0} {S : Type 0} (f : A → Exec S B) (r : Outcome A) (s : S)
    → Fails r
    → Fails (continue f r s).0
continue-Fails f (returns a) s h b e = h a refl
continue-Fails f (raises x) s h b e = ground arith
continue-Fails f cancelled s h b e = ground arith

abbrev already : Exception
already = application (make_error unauthorized (some "The refresh token has already been used."))

-- The replies of the rotation that open no session.
data Refusal : Reply → Type 0 where
  reused : (session : Text) → Refusal (Reply.array (codes "reused" ∷ session ∷ []))
  missing : Refusal (Reply.array (codes "missing" ∷ [] ∷ []))
  broken : (m : String) → Refusal (Reply.error m)

reused-Refusal :
    (collides : List Text → Text → Bool) (k2 : Text) (r : Reply) (ks : Keyspace)
    → Refusal (perform collides (rotate_reused k2 r) ks).0
reused-Refusal collides k2 (Reply.bulk session) ks = reused session
reused-Refusal collides k2 (Reply.error m) ks = broken m
reused-Refusal collides k2 _ ks = missing

module _ (o : Outside) (settings : Settings) where
  raise-Fails :
      {A B : Type 0} (m : Exec (World o) A) (e : Exception) (w : World o)
      → Fails ((m >> raise {A = B} e) w).0
  raise-Fails m e w = by_outcome (m w).0 (m w).1
    where
      by_outcome :
          {A B : Type 0} (r : Outcome A) (w' : World o)
          → Fails (continue (λ _. raise {A = B} e) r w').0
      by_outcome (returns a) w' b h = ground arith
      by_outcome (raises x) w' b h = ground arith
      by_outcome cancelled w' b h = ground arith

  parsed-Fails :
      (p : Outcome (Uuid × Text)) (w : World o)
      → Fails (continue (finish_rotation o settings (codes "reused")) p w).0
  parsed-Fails (returns (u, f)) w b h = raise-Fails (revoke_family o settings u f) already w b h
  parsed-Fails (raises e) w b h = ground arith
  parsed-Fails cancelled w b h = ground arith

  refused-Fails :
      (r : Reply) (w : World o)
      → Refusal r
      → Fails ((checked r >>= λ q. parse_rotation o settings (result_pair q)) w).0
  unfolding result_pair
  refused-Fails r w (reused session) b h = parsed-Fails (parse_session session) w b h
  refused-Fails r w missing b h = ground arith
  refused-Fails r w (broken m) b h = ground arith

  -- On a documented Redis a refresh token that is not live opens no session: `rotate_refresh` does not
  -- return, whether it was used before or never issued.
  pub rotate_refresh-Fails :
      (D : Documented o.redis) (value : Text) (w : World o)
      → D.view w.server (refresh_key (token_digest o settings value)) ≡ none
      → Fails (rotate_refresh o settings value w).0
  unfolding rotate_refresh rotate_script
  rotate_refresh-Fails D value w gone =
      let k1 = refresh_key (token_digest o settings value) in
      let k2 = reuse_key (token_digest o settings value) in
      let n = refresh_seconds settings in
      let ks = D.view w.server in
      let refusal : Refusal (perform D.collides (rotate_script k1 k2 n) ks).0 =
        subst (λ e. Refusal (perform D.collides (rotate_session k1 k2 n (on_get e)) ks).0)
          (sym gone) (reused-Refusal D.collides k2 (on_get (ks k2)) ks) in
      rw D.run_lem (
        refused-Fails (perform D.collides (rotate_script k1 k2 n) ks).0
          (record w { server = D.after (rotate_script k1 k2 n) w.server }) refusal)
