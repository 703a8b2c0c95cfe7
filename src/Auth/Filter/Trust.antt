-- ===== src/Auth/Filter/Trust.antt =====
-- `might_exist`, backend/src/features/auth/availability/email_filter.py.
use gamely.Base.{
  ◌≡◌, inl, inr, refl, Option, none, some, List, [], ◌∷◌, Bool, true, false, ◌||◌, ◌&&◌, not,
  text_eq_sound, Text, contains, Bool-cases, arith, if◌then◌else◌,
}
use gamely.Errors.{Exec, Exception, Outcome, returns, raises, cancelled, try_except, pure, ◌>>=◌}
use gamely.Redis.{Reply, Command, single, checked}
use gamely.Redis.Documented.{
  Documented, Keyspace, Entry, Value, filter, str, on_get, on_cf_exists, look_up,
}
use gamely.Cuckoo.{fingerprint, contains_if_ready, is_marker, is_one, mark_unready}
use gamely.Auth.Filter.{
  build_email_filter, ask_filter, add_address, might_exist, remember, withdraw_trust, true_if_none,
  email_filter_key, email_filter_meta_key,
}
use gamely.Outside.{Outside, World}
use gamely.Settings.{Settings}

abbrev pub is_raised : {A : Type 0} → Outcome A → Bool
is_raised (returns a) = false
is_raised (raises e) = true
is_raised cancelled = false

-- A `try` whose handler does not raise does not raise.
pub is_raised-try_except :
    {S A : Type 0} (m : Exec S A) (h : Exception → Exec S A) (s : S)
    → ((e : Exception) (t : S) → is_raised (h e t).0 ≡ false)
    → is_raised (try_except m h s).0 ≡ false
is_raised-try_except m h s quiet = let (r, t) = m s in ended r t
  where
    ended :
        (r : Outcome _) (t : _) → is_raised (let q = r in try_except (λ _. (q, t)) h t).0 ≡ false
    ended (returns a) t = refl
    ended (raises e) t = quiet e t
    ended cancelled t = refl

pub is_raised-if :
    {S A : Type 0} (b : Bool) (m n : Exec S A) (s : S)
    → is_raised (m s).0 ≡ false
    → is_raised (n s).0 ≡ false
    → is_raised ((if b then m else n) s).0 ≡ false
is_raised-if true m n s h k = h
is_raised-if false m n s h k = k

module _ (o : Outside) (settings : Settings) where
  withdraw_trust-quiet : (w : World o) → is_raised (withdraw_trust o settings w).0 ≡ false
  unfolding withdraw_trust
  withdraw_trust-quiet w =
      is_raised-try_except (mark_unready o (build_email_filter settings)) _ w (λ e t. refl)

  might_exist-quiet :
      (email : Text) (w : World o) → is_raised (might_exist o settings email w).0 ≡ false
  unfolding might_exist
  might_exist-quiet email w =
      is_raised-if settings.auth_email_filter_enabled _ _ w
        (is_raised-try_except (ask_filter o settings email) (λ _. pure true) w (λ e t. refl)) refl

  remember-quiet : (email : Text) (w : World o) → is_raised (remember o settings email w).0 ≡ false
  unfolding remember
  remember-quiet email w =
      is_raised-if settings.auth_email_filter_enabled _ _ w
        (is_raised-try_except (add_address o settings email) (λ _. withdraw_trust o settings) w
          (λ e t. withdraw_trust-quiet t))
        refl

  -- Whatever Redis does, neither the lookup nor the note of an address raises.
  pub filter_never_raises :
      (email : Text) (w : World o)
      → (is_raised (might_exist o settings email w).0 ≡ false)
        × (is_raised (remember o settings email w).0 ≡ false)
  filter_never_raises email w = (might_exist-quiet email w, remember-quiet email w)

-- The items of a filter; any other value, and no value, has none.
abbrev value_items : Value → List Text
value_items (filter xs d) = xs
value_items _ = []

abbrev pub items : Option Entry → List Text
items none = []
items (some e) = value_items e.value

-- Whether the keys mark the filter as complete, for these settings.
abbrev pub is_trusted : Settings → Keyspace → Bool
is_trusted settings ks =
    is_marker (fingerprint (build_email_filter settings)) (on_get (ks email_filter_meta_key))

-- Every address of a list is among the items.
abbrev pub covers : List Text → List Text → Bool
covers xs [] = true
covers xs (e ∷ es) = contains xs e && covers xs es

-- The keys are safe for these addresses: the filter is not trusted, or holds them all.
abbrev pub is_safe : Settings → Keyspace → List Text → Bool
is_safe settings ks emails =
    not (is_trusted settings ks) || covers (items (ks email_filter_key)) emails

pub covers-contains :
    (xs emails : List Text) (e : Text)
    → covers xs emails ≡ true
    → contains emails e ≡ true
    → contains xs e ≡ true
covers-contains xs [] e h k = cc
covers-contains xs (x ∷ rest) e h k = ground (arith, covers-contains xs rest e, text_eq_sound x e)

is_safe-covers :
    (settings : Settings) (ks : Keyspace) (emails : List Text)
    → is_safe settings ks emails ≡ true
    → is_trusted settings ks ≡ true
    → covers (items (ks email_filter_key)) emails ≡ true
is_safe-covers settings ks emails h k = rw k at h

module _ (collides : List Text → Text → Bool) (email : Text) where
  look_up-held :
      (v : Value) → contains (value_items v) email ≡ true → look_up collides email v ≡ Reply.int 1
  look_up-held (filter xs d) h = rw h
  look_up-held (str t) h = ground arith
  look_up-held _ h = ground arith

  cf_exists-held :
      (e : Option Entry)
      → contains (items e) email ≡ true
      → on_cf_exists collides email e ≡ Reply.int 1
  cf_exists-held none h = ground arith
  cf_exists-held (some e) h = look_up-held e.value h

module _ (o : Outside) (settings : Settings) where
  -- What the replies of the two commands come to.
  abbrev conclude : Reply → Reply → Exec (World o) Bool
  conclude first second = do
    marker ← checked first
    hit ← checked second
    pure (
        true_if_none (
          if is_marker (fingerprint (build_email_filter settings)) marker
          then some (is_one hit)
          else none))

  -- The same, as the code nests it.
  regroup :
      (first second : Reply) (w : World o)
      → (do
        hit ← do
          marker ← checked first
          hit ← checked second
          pure (
              if is_marker (fingerprint (build_email_filter settings)) marker
              then some (is_one hit)
              else none)
        pure (true_if_none hit))
          w
        ≡ conclude first second w
  regroup first second w = ground arith

  conclude-unmarked :
      (first second : Reply) (w : World o)
      → is_marker (fingerprint (build_email_filter settings)) first ≡ false
      → (try_except (conclude first second) (λ _. pure true) w).0 ≡ returns true
  conclude-unmarked first second w h = ground arith

  conclude-hit :
      (first : Reply) (w : World o)
      → (try_except (conclude first (Reply.int 1)) (λ _. pure true) w).0 ≡ returns true
  conclude-hit first w = ground arith

module _ (o : Outside) (D : Documented o.redis) (settings : Settings) (email : Text)
    (w : World o) where
  abbrev after_reads : World o
  after_reads =
      let sc1 = single (Command.get email_filter_meta_key) in
      let sc2 = single (Command.cf_exists email_filter_key email) in
      record w { server = D.after sc2 (D.after sc1 w.server) }

  ask_filter-eq :
      ask_filter o settings email w
      ≡ conclude o settings
          (on_get (D.view w.server email_filter_meta_key))
          (on_cf_exists D.collides email (D.view w.server email_filter_key))
          after_reads
  unfolding ask_filter contains_if_ready build_email_filter
  ask_filter-eq =
      rw (D.run_lem, D.run_lem)
        (rw D.view-after (
          regroup o settings (on_get (D.view w.server email_filter_meta_key))
            (on_cf_exists D.collides email (D.view w.server email_filter_key)) after_reads))

  might_exist-held :
      contains (items (D.view w.server email_filter_key)) email ≡ true
      → (might_exist o settings email w).0 ≡ returns true
  unfolding might_exist
  might_exist-held h = elim (Bool-cases settings.auth_email_filter_enabled) [
    | inl on ↦ simp on (
        rw (ask_filter-eq, cf_exists-held D.collides email (D.view w.server email_filter_key) h)
          (conclude-hit o settings (on_get (D.view w.server email_filter_meta_key)) after_reads))
    | inr off ↦ simp off
  ]

  might_exist-untrusted :
      is_trusted settings (D.view w.server) ≡ false
      → (might_exist o settings email w).0 ≡ returns true
  unfolding might_exist
  might_exist-untrusted h = elim (Bool-cases settings.auth_email_filter_enabled) [
    | inl on ↦ simp on (
        rw ask_filter-eq (
          conclude-unmarked o settings (on_get (D.view w.server email_filter_meta_key))
            (on_cf_exists D.collides email (D.view w.server email_filter_key)) after_reads h))
    | inr off ↦ simp off
  ]

  -- On a documented Redis, where the filter is safe for the registered addresses (it holds them
  -- all, or is not marked as complete for these settings), an address that `might_exist` reports as
  -- absent is not registered, whatever collides in the filter.
  pub might_exist-absent :
      (emails : List Text)
      → is_safe settings (D.view w.server) emails ≡ true
      → (might_exist o settings email w).0 ≡ returns false
      → contains emails email ≡ false
  might_exist-absent emails safe miss = elim (Bool-cases (is_trusted settings (D.view w.server))) [
    | inr untrusted ↦ (let answered = might_exist-untrusted untrusted in cc)
    | inl trusted ↦ elim (Bool-cases (contains emails email)) [
      | inr absent ↦ absent
      | inl present ↦
          let held : contains (items (D.view w.server email_filter_key)) email ≡ true =
            covers-contains (items (D.view w.server email_filter_key)) emails email
              (is_safe-covers settings (D.view w.server) emails safe trusted) present in
          cc (might_exist-held held)
    ]
  ]
