-- ===== src/Auth/Token/Tracked.antt =====
-- The refresh tokens of one user along the scripts of backend/src/features/auth/token/token_service.py.
use mathlib.Core.Path.{subst}
use gamely.Base.{
  ℕ, ◌≡◌, refl, sym, ◌∙◌, ap, true, false, Bool-cases, inl, inr, Option, none, some, List, [], Text,
  text_eq, text_eq_sound, text_eq_complete, codes, ◌++◌, contains, if◌then◌else◌,
}
use gamely.Base.Uuid.{Uuid}
use gamely.Redis.Documented.{Keyspace, Value, Entry, str, put, on_smembers, on_sadd, on_expire}
use gamely.Redis.Sets.{
  IsSetOf, with_member, with_member-new, with_member-old, sadd-IsSetOf, sadd-other, expire-IsSetOf,
  expire-other,
}
use gamely.Settings.{Settings}
use gamely.Auth.Token.{refresh_key, sessions_key, family_key, session_value, refresh_seconds}
use gamely.Auth.Token.Keys.{
  refresh_ne_family, refresh_ne_sessions, family_ne_sessions, family_ne_refresh,
  sessions_ne_refresh, sessions_ne_family, refresh_key-eq, family_key-eq,
}
use gamely.Auth.Token.Rotation.{text_entry}

-- The user's families are a set, each family is a set of digests, and every live token of the user
-- stands in its family, and its family among the user's.
pub record IsTracked (u : Uuid) (ks : Keyspace) : Type 0 where
  pub families : List Text
  pub sessions : IsSetOf families (ks (sessions_key u))
  pub digests : Text → List Text
  pub family : (f : Text) → IsSetOf (digests f) (ks (family_key u f))
  pub listed :
      (d f : Text) (left : Option ℕ)
      → ks (refresh_key d) ≡ some (text_entry (session_value u f) left)
      → (contains families f ≡ true) × (contains (digests f) d ≡ true)

-- Two sessions of one user are the same only if their families are.
value_text : Value → Text
value_text (str t) = t
value_text _ = []

entry_text : Option Entry → Text
entry_text none = []
entry_text (some e) = value_text e.value

same_family :
    (u : Uuid) (f g : Text) (left left' : Option ℕ)
    → some (text_entry (session_value u f) left) ≡ some (text_entry (session_value u g) left')
    → f ≡ g
unfolding entry_text value_text session_value family_key
same_family u f g left left' e = text_eq_sound f g (
    sym (family_key-eq u f g)
    ∙ text_eq_complete (family_key u f) (family_key u g)
        (ap (λ o. codes "auth:session:" ++ entry_text o) e))

module _ (u : Uuid) (ks : Keyspace) (settings : Settings) (f d : Text) where
  abbrev n : ℕ
  n = refresh_seconds settings

  -- The keys after each command of `issue_pipeline`.
  abbrev ks1 : Keyspace
  ks1 = put (refresh_key d) (text_entry (session_value u f) (some n)) ks

  abbrev ks2 : Keyspace
  ks2 = (on_sadd (family_key u f) d (ks1 (family_key u f)) ks1).1

  abbrev ks3 : Keyspace
  ks3 = (on_expire (family_key u f) n (ks2 (family_key u f)) ks2).1

  abbrev ks4 : Keyspace
  ks4 = (on_sadd (sessions_key u) f (ks3 (sessions_key u)) ks3).1

  abbrev pub issued : Keyspace
  issued = (on_expire (sessions_key u) n (ks4 (sessions_key u)) ks4).1

  issued-other :
      (k : Text)
      → text_eq (family_key u f) k ≡ false
      → text_eq (sessions_key u) k ≡ false
      → issued k ≡ ks1 k
  issued-other k a b =
      expire-other (sessions_key u) n ks4 (ks4 (sessions_key u)) k b
      ∙ sadd-other (sessions_key u) f ks3 (ks3 (sessions_key u)) k b
      ∙ expire-other (family_key u f) n ks2 (ks2 (family_key u f)) k a
      ∙ sadd-other (family_key u f) d ks1 (ks1 (family_key u f)) k a

  issued-refresh :
      (e : Text)
      → issued (refresh_key e) ≡ (
          if text_eq d e
          then some (text_entry (session_value u f) (some n))
          else ks (refresh_key e))
  issued-refresh e =
      issued-other (refresh_key e) (family_ne_refresh u f e) (sessions_ne_refresh u e)
      ∙ rw (refresh_key-eq d e) refl

  issued-family :
      (ds : List Text)
      → IsSetOf ds (ks (family_key u f))
      → IsSetOf (with_member d ds) (issued (family_key u f))
  issued-family ds h =
      let k = family_key u f in
      let other = sessions_ne_family u u f in
      ap on_smembers (
        expire-other (sessions_key u) n ks4 (ks4 (sessions_key u)) k other
        ∙ sadd-other (sessions_key u) f ks3 (ks3 (sessions_key u)) k other)
      ∙ expire-IsSetOf k n ks2 (with_member d ds) (ks2 k) refl
          (sadd-IsSetOf k d ks1 ds (ks1 k) refl (rw (refresh_ne_family u f d) h))

  issued-other_family :
      (g : Text) → text_eq f g ≡ false → issued (family_key u g) ≡ ks (family_key u g)
  issued-other_family g other =
      issued-other (family_key u g) (family_key-eq u f g ∙ other) (sessions_ne_family u u g)
      ∙ rw (refresh_ne_family u g d) refl

  issued-sessions :
      (fs : List Text)
      → IsSetOf fs (ks (sessions_key u))
      → IsSetOf (with_member f fs) (issued (sessions_key u))
  issued-sessions fs h =
      let k = sessions_key u in
      let other = family_ne_sessions u u f in
      expire-IsSetOf k n ks4 (with_member f fs) (ks4 k) refl (
        sadd-IsSetOf k f ks3 fs (ks3 k) refl (
          ap on_smembers (
            expire-other (family_key u f) n ks2 (ks2 (family_key u f)) k other
            ∙ sadd-other (family_key u f) d ks1 (ks1 (family_key u f)) k other)
          ∙ rw (refresh_ne_sessions u d) h))

  module _ (t : IsTracked u ks) where
    digests_now : Text → List Text
    digests_now g = if text_eq f g then with_member d (t.digests g) else t.digests g

    family_now : (g : Text) → IsSetOf (digests_now g) (issued (family_key u g))
    unfolding digests_now
    family_now g = elim (Bool-cases (text_eq f g)) [
      | inl same ↦ rw same (
          subst (λ h. IsSetOf (with_member d (t.digests h)) (issued (family_key u h)))
            (text_eq_sound f g same) (issued-family (t.digests f) (t.family f)))
      | inr other ↦ rw other (ap on_smembers (issued-other_family g other) ∙ t.family g)
    ]

    new_listed :
        (e g : Text)
        → d ≡ e
        → f ≡ g
        → (contains (with_member f t.families) g ≡ true) × (contains (digests_now g) e ≡ true)
    unfolding digests_now
    new_listed e g same family = (
      subst (λ h. contains (with_member f t.families) h ≡ true) family
          (with_member-new f t.families),
      rw (text_eq_complete f g family) (
          subst (λ x. contains (with_member d (t.digests g)) x ≡ true) same
            (with_member-new d (t.digests g))),
    )

    old_listed :
        (e g : Text)
        → contains t.families g ≡ true
        → contains (t.digests g) e ≡ true
        → (contains (with_member f t.families) g ≡ true) × (contains (digests_now g) e ≡ true)
    unfolding digests_now
    old_listed e g a b = (
      with_member-old f g t.families a,
      elim (Bool-cases (text_eq f g)) [
        | inl same ↦ rw same (with_member-old d e (t.digests g) b)
        | inr other ↦ rw other b
      ],
    )

    -- Issuing a token keeps them tracked.
    pub issued-IsTracked : IsTracked u issued
    issued-IsTracked = record {
      families = with_member f t.families;
      sessions = issued-sessions t.families t.sessions;
      digests = digests_now;
      family = family_now;
      listed = listed_now;
    }
      where
        listed_now :
            (e g : Text) (left : Option ℕ)
            → issued (refresh_key e) ≡ some (text_entry (session_value u g) left)
            → (contains (with_member f t.families) g ≡ true) × (contains (digests_now g) e ≡ true)
        listed_now e g left h =
            let h' = sym (issued-refresh e) ∙ h in
            elim (Bool-cases (text_eq d e)) [
              | inl same ↦
                  new_listed e g (text_eq_sound d e same)
                    (same_family u f g (some n) left (rw same at h'))
              | inr other ↦ let (a, b) = t.listed e g left (rw other at h') in old_listed e g a b
            ]
