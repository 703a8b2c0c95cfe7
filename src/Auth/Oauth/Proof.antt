-- ===== src/Auth/Oauth/Proof.antt =====
-- `OAuthService.login`, backend/src/features/auth/oauth/oauth_service.py.
use gamely.Base.{
  ℕ, ◌≡◌, ◌≢◌, refl, sym, ◌∙◌, ap, ◌&&◌, ◌||◌, codes, contains, has_char, length, leb, ltb, ◌==◌,
  text_eq, lower, Bool-cases, inl, inr, Bool, true, false, Option, none, some, [], ◌∷◌, Text,
  text_eq_sound, if◌then◌else◌, arith, not,
}
use mathlib.Core.Path.{subst}
use gamely.Errors.{
  Exec, Exception, Outcome, returns, raises, cancelled, application, make_error, unauthorized,
  continue, lift, ◌>>=◌, ◌>>◌,
}
use gamely.Redis.{Command, single}
use gamely.Redis.Documented.{Documented, Keyspace, Entry, drop}
use gamely.Auth.Oauth.{
  ProviderConfig, nonce_key, provider_config, provider_email, email_claim, comes_from, first_text,
  text_or_empty, first_text, names_verified_user, was_deleted, decoded, check_origin, check_email,
  login_challenged, oauth_login,
}
use gamely.Auth.EmailAddress.{strip}
use gamely.Auth.Service.{Session}
use gamely.Outside.{Outside, ProviderClaims, World, command}
use gamely.Settings.{Settings}

abbrev pub unchallenged : Exception
unchallenged =
    application (make_error unauthorized (some "The OAuth challenge is invalid or expired."))

-- A sequence that returns has returned at each of its steps.
continue-inv :
    {S A B : Type 0} (f : A → Exec S B) (r : Outcome A) (s : S) (b : B)
    → (continue f r s).0 ≡ returns b
    → (a : A) × (r ≡ returns a) × ((f a s).0 ≡ returns b)
continue-inv f (returns a) s b h = (a, refl, h)
continue-inv f (raises e) s b h = ground arith
continue-inv f cancelled s b h = ground arith

bind-inv :
    {S A B : Type 0} (m : Exec S A) (f : A → Exec S B) (s : S) (b : B)
    → ((m >>= f) s).0 ≡ returns b
    → (a : A) × ((m s).0 ≡ returns a) × ((f a (m s).1).0 ≡ returns b)
bind-inv m f s b h = continue-inv f (m s).0 (m s).1 b h

drop_absent : (key k : Text) (ks : Keyspace) → ks key ≡ none → drop key ks k ≡ ks k
drop_absent key k ks h = ground (arith, text_eq_sound key k)

-- A claim that is absent counts as empty.
abbrev pub value_of : Option Text → Text
value_of none = []
value_of (some t) = t

value_of_lem : (t : Option Text) → text_or_empty t ≡ value_of t
value_of_lem none = refl
value_of_lem (some t) = refl

-- The claim that names the address: `preferred_username` only at Microsoft, and where `email` is empty.
abbrev pub either_of : Option Text → Option Text → Text
either_of none b = value_of b
either_of (some []) b = value_of b
either_of (some (c ∷ cs)) b = c ∷ cs

abbrev pub address_claim : Text → ProviderClaims → Text
address_claim provider claims =
    if text_eq provider (codes "microsoft")
    then either_of claims.email claims.preferred_username
    else value_of claims.email

either_of_lem : (a b : Option Text) → first_text a b ≡ either_of a b
either_of_lem none b = value_of_lem b
either_of_lem (some []) b = value_of_lem b
either_of_lem (some (c ∷ cs)) b = refl

address_claim_lem :
    (provider : Text) (claims : ProviderClaims)
    → email_claim provider claims ≡ address_claim provider claims
unfolding email_claim
address_claim_lem provider claims =
    rw (either_of_lem claims.email claims.preferred_username, value_of_lem claims.email) refl

both : (a b : Bool) → (a && b) ≡ true → (a ≡ true) × (b ≡ true)
both true b h = (refl, h)
both false b h = ground arith

not_empty : (t : Text) → not (length t == 0) ≡ true → t ≢ []
not_empty [] h e = ground arith
not_empty (c ∷ cs) h e = ground (arith, e)

checked_address :
    (e email : Text) (x : Exception)
    → (if not (has_char b'@' e) || ltb 320 (length e) then raises x else returns e) ≡ returns email
    → (has_char b'@' email ≡ true) × (leb (length email) 320 ≡ true) × (email ≡ e)
checked_address e email x h = elim (Bool-cases (has_char b'@' e)) [
  | inl at ↦ elim (Bool-cases (ltb 320 (length e))) [
    | inl long ↦ ground (arith, (rw (at, long) at h))
    | inr short ↦
        let same : e ≡ email = ground (arith, (rw (at, short) at h)) in
        subst (λ t. (has_char b'@' t ≡ true) × (leb (length t) 320 ≡ true) × (t ≡ e)) same
          (at, ground (arith, short), refl)
  ]
  | inr none_at ↦ ground (arith, (rw none_at at h))
]

provider_email-inv :
    (value email : Text)
    → provider_email value ≡ returns email
    → (has_char b'@' email ≡ true) × (leb (length email) 320 ≡ true) × (email ≡ lower (strip value))
unfolding provider_email
provider_email-inv value email h = checked_address (lower (strip value)) email _ h

-- A provider's token proves who its bearer is: it verifies for the configured client, comes from
-- the provider with this nonce, and names a user with a verified address.
pub record Proven (o : Outside) (settings : Settings) (provider id_token nonce : Text) (now : ℕ)
    : Type 0 where
  pub config : ProviderConfig
  pub claims : ProviderClaims
  pub email : Text
  pub is_configured : provider_config settings provider ≡ returns config
  pub verifies : o.provider_decode config.jwks_url config.client_id now id_token ≡ some claims
  pub issuer : contains config.issuers (value_of claims.iss) ≡ true
  pub nonce_claim : value_of claims.nonce ≡ nonce
  pub subject : value_of claims.sub ≢ []
  pub verified : (text_eq provider (codes "microsoft") || claims.email_verified) ≡ true
  pub claimed : email ≡ lower (strip (address_claim provider claims))
  pub is_address : has_char b'@' email ≡ true
  pub is_short : leb (length email) 320 ≡ true

module _ (o : Outside) (settings : Settings) (provider id_token nonce : Text) where
  decoded-inv :
      (found : Option ProviderClaims) (w : World o) (c : ProviderClaims)
      → (decoded o settings found w).0 ≡ returns c
      → (found ≡ some c) × ((decoded o settings found w).1 ≡ w)
  decoded-inv none w c h = ground arith
  decoded-inv (some claims) w c h = (ground arith, refl)

  check_origin-inv :
      (config : ProviderConfig) (c : ProviderClaims) (w : World o)
      → (check_origin o settings config nonce c w).0 ≡ returns tt
      → (contains config.issuers (value_of c.iss) ≡ true) × (value_of c.nonce ≡ nonce)
  unfolding check_origin comes_from
  check_origin-inv config c w h =
      let (a, b) =
        both (contains config.issuers (text_or_empty c.iss)) (text_eq (text_or_empty c.nonce) nonce)
          (ground arith) in
      (
        ap (contains config.issuers) (sym (value_of_lem c.iss)) ∙ a,
        sym (value_of_lem c.nonce) ∙ text_eq_sound (text_or_empty c.nonce) nonce b,
      )

  check_email-inv :
      (c : ProviderClaims) (w : World o)
      → (check_email o settings provider c w).0 ≡ returns tt
      → (value_of c.sub ≢ []) × ((text_eq provider (codes "microsoft") || c.email_verified) ≡ true)
  unfolding check_email names_verified_user
  check_email-inv c w h =
      let (a, b) =
        both (not (length (text_or_empty c.sub) == 0))
          (text_eq provider (codes "microsoft") || c.email_verified) (ground arith) in
      (subst (λ t. t ≢ []) (value_of_lem c.sub) (not_empty (text_or_empty c.sub) a), b)

  login_challenged-Proven :
      (w : World o) (s : Session)
      → (login_challenged o settings provider id_token nonce w).0 ≡ returns s
      → Proven o settings provider id_token nonce w.now
  unfolding login_challenged
  login_challenged-Proven w s h =
      let (config, configured, h1) = bind-inv (lift (provider_config settings provider)) _ w s h in
      let (claims, verified, h2) =
        bind-inv
          (decoded o settings (o.provider_decode config.jwks_url config.client_id w.now id_token)) _
          w s h1 in
      let (found, same) =
        decoded-inv (o.provider_decode config.jwks_url config.client_id w.now id_token) w claims
          verified in
      let (done, origin, h3) = bind-inv (check_origin o settings config nonce claims) _ _ s h2 in
      let (email, address, h4) =
        bind-inv (lift (provider_email (email_claim provider claims))) _ _ s h3 in
      let (done', named, h5) = bind-inv (check_email o settings provider claims) _ _ s h4 in
      record {
        config = config;
        claims = claims;
        email = email;
        is_configured = configured;
        verifies = found;
        issuer = (check_origin-inv config claims _ origin).0;
        nonce_claim = (check_origin-inv config claims _ origin).1;
        subject = (check_email-inv claims _ named).0;
        verified = (check_email-inv claims _ named).1;
        claimed =
            (provider_email-inv (email_claim provider claims) email address).2
            ∙ ap (λ t. lower (strip t)) (address_claim_lem provider claims);
        is_address = (provider_email-inv (email_claim provider claims) email address).0;
        is_short = (provider_email-inv (email_claim provider claims) email address).1;
      }

  command-now : (c : Command) (w : World o) → (command o c w).1.now ≡ w.now
  command-now c w = ground arith

  if-returns :
      (b : Bool) (m : Exec (World o) Session) (x : Exception) (w : World o) (s : Session)
      → ((if b then m else (λ v. (raises x, v))) w).0 ≡ returns s
      → (m w).0 ≡ returns s
  if-returns true m x w s h = h
  if-returns false m x w s h = ground arith

  -- Whatever the services do, a `login` that returns a session was given a token that verifies by the
  -- provider's keys for the configured client, from an issuer of its configuration, with the nonce of the
  -- challenge, a subject that is not empty, and an address, normalised from
  -- the claim for it, with an @ and at most 320 characters, which the
  -- claims call verified unless the provider is Microsoft.
  pub oauth_login-Proven :
      (w : World o) (s : Session)
      → (oauth_login o settings provider id_token nonce w).0 ≡ returns s
      → Proven o settings provider id_token nonce w.now
  unfolding oauth_login
  oauth_login-Proven w s h =
      let take = Command.del (nonce_key provider nonce ∷ []) in
      let (reply, deleted, h1) = bind-inv (command o take) _ w s h in
      subst (Proven o settings provider id_token nonce) (command-now take w) (
        login_challenged-Proven (command o take w).1 s (
          if-returns (was_deleted reply) (login_challenged o settings provider id_token nonce)
            unchallenged (command o take w).1 s h1))

  module _ (D : Documented o.redis) (w : World o) where
    abbrev key : Text
    key = nonce_key provider nonce

    -- On a documented Redis, where no challenge with this nonce is stored, `login` refuses, and no key
    -- changes. Neither the database nor the broker is reached, and nothing is drawn.
    pub oauth_login-unchallenged :
        D.view w.server key ≡ none
        → let (r, w') = oauth_login o settings provider id_token nonce w in
          (r ≡ raises unchallenged)
          × ((k : Text) → D.view w'.server k ≡ D.view w.server k)
          × (w'.session ≡ w.session)
          × (w'.connection ≡ w.connection)
          × (w'.draws ≡ w.draws)
    unfolding oauth_login
    oauth_login-unchallenged absent =
        rw (D.run_lem, absent)
          (
            refl,
            λ k.
                ap (λ (ks : Keyspace). ks k) (D.view-after _ w.server)
                ∙ drop_absent key k (D.view w.server) absent,
            refl,
            refl,
            refl,
          )

    -- What verifies is missing, from another issuer, or for another challenge.
    abbrev pub is_unproven : ProviderConfig → Option ProviderClaims → Bool
    is_unproven config none = true
    is_unproven config (some claims) =
        not (contains config.issuers (value_of claims.iss))
        || not (text_eq (value_of claims.nonce) nonce)

    other_origin :
        (config : ProviderConfig) (claims : ProviderClaims)
        → is_unproven config (some claims) ≡ true
        → comes_from config nonce claims ≡ false
    unfolding comes_from
    other_origin config claims h =
        rw (value_of_lem claims.iss, value_of_lem claims.nonce) (ground arith)

    taken : World o
    taken = record w { server = D.after (single (Command.del (key ∷ []))) w.server }

    oauth_login-taken :
        (e : Entry)
        → D.view w.server key ≡ some e
        → oauth_login o settings provider id_token nonce w
          ≡ login_challenged o settings provider id_token nonce taken
    unfolding oauth_login taken
    oauth_login-taken e present = rw (D.run_lem, present) refl

    decoded-unproven :
        (config : ProviderConfig) (found : Option ProviderClaims) (v : World o)
        (f : ProviderClaims → Exec (World o) Session)
        → is_unproven config found ≡ true
        → let (r, v') =
            (do
              claims ← decoded o settings found
              check_origin o settings config nonce claims
              f claims)
              v in
          ((x : Exception) × (r ≡ raises x)) × (v' ≡ v)
    unfolding check_origin
    decoded-unproven config none v f h = ((_, refl), refl)
    decoded-unproven config (some claims) v f h =
        let k = other_origin config claims h in rw k ((_, refl), refl)

    login_challenged-unproven :
        (config : ProviderConfig) (v : World o)
        → provider_config settings provider ≡ returns config
        → is_unproven config (o.provider_decode config.jwks_url config.client_id v.now id_token)
          ≡ true
        → let (r, v') = login_challenged o settings provider id_token nonce v in
          ((x : Exception) × (r ≡ raises x)) × (v' ≡ v)
    unfolding login_challenged
    login_challenged-unproven config v configured unproven = rw configured (
        decoded-unproven config (o.provider_decode config.jwks_url config.client_id v.now id_token)
          v _ unproven)

    -- On a documented Redis, where the challenge is stored, the provider is configured, and the token
    -- does not verify, or is from another issuer or for another nonce, `login` raises, the challenge
    -- is used up, no other key changes, and the database is not reached.
    pub oauth_login-unproven :
        (config : ProviderConfig) (e : Entry)
        → D.view w.server key ≡ some e
        → provider_config settings provider ≡ returns config
        → is_unproven config (o.provider_decode config.jwks_url config.client_id w.now id_token)
          ≡ true
        → let (r, w') = oauth_login o settings provider id_token nonce w in
          ((x : Exception) × (r ≡ raises x))
          × (D.view w'.server ≡ drop key (D.view w.server))
          × (w'.session ≡ w.session)
    unfolding taken
    oauth_login-unproven config e present configured unproven =
        let ((x, raised), same) = login_challenged-unproven config taken configured unproven in
        rw (oauth_login-taken e present) (
          (x, raised),
          ap (λ (v : World o). D.view v.server) same ∙ D.view-after _ w.server,
          ap (λ (v : World o). v.session) same,
        )
