-- ===== src/Auth/Codes/Bound.antt =====
-- Several calls of `_consume_code`, backend/src/features/auth/auth_service.py.
use gamely.Base.{
  ℕ, suc, ◌+◌, ◌≡◌, refl, ◌∙◌, ap, Bool, true, false, Option, none, some, List, [], ◌∷◌, Text,
  text_eq, text_eq_refl, has_char, leb, length, arith, Bool-cases, inl, inr, not, ◌&&◌,
}
use gamely.Errors.{returns}
use gamely.Redis.Documented.{Documented, Keyspace, Entry, drop, put}
use gamely.Auth.Codes.{code_key, consume_code}
use gamely.Auth.Codes.Guessing.{
  code_entry, consume_code-absent, consume_code-spent, consume_code-right, consume_code-wrong,
}
use gamely.Settings.{Settings}
use gamely.Outside.{Outside, World}

drop-same : (k : Text) (ks : Keyspace) → drop k ks k ≡ none
drop-same k ks = rw (text_eq_refl k)

put-same : (k : Text) (e : Entry) (ks : Keyspace) → put k e ks k ≡ some e
put-same k e ks = rw (text_eq_refl k)

-- A code that has met at least `n` wrong guesses, or is gone.
data Guessed (key digest : Text) (n : ℕ) (ks : Keyspace) : Type 0 where
  gone : ks key ≡ none → Guessed key digest n ks
  counts :
      (m : ℕ) (left : Option ℕ)
      → leb n m ≡ true
      → ks key ≡ some (code_entry digest m left)
      → Guessed key digest n ks

gone_from :
    (key digest : Text) (n : ℕ) (ks ks' : Keyspace) → ks' ≡ drop key ks → Guessed key digest n ks'
gone_from key digest n ks ks' e = gone (ap (λ (f : Keyspace). f key) e ∙ drop-same key ks)

module _ (o : Outside) (D : Documented o.redis) (settings : Settings) (email purpose : Text) where
  abbrev key : Text
  key = code_key purpose email

  module _ (digest : Text) (h : has_char b':' digest ≡ false) where
    wrong_guess :
        (n : ℕ) (g : Text) (w : World o)
        → text_eq digest (o.sha256_hex g) ≡ false
        → Guessed key digest n (D.view w.server)
        → Guessed key digest (suc n) (D.view (consume_code o settings email purpose g w).1.server)
    wrong_guess n g w wrong (gone absent) =
        let (r, kept) = consume_code-absent o D settings email purpose g w absent in
        gone (ap (λ (ks : Keyspace). ks key) kept ∙ absent)
    wrong_guess n g w wrong (counts m left le stored) = elim (Bool-cases (leb 4 m)) [
      | inl spent ↦
          gone_from key digest (suc n) (D.view w.server) _
            (consume_code-spent o D settings email purpose g w digest m left h stored spent).1
      | inr fresh ↦ counts (m + 1) _ (ground arith) (
          ap (λ (ks : Keyspace). ks key)
            (consume_code-wrong o D settings email purpose g w digest m left h stored fresh wrong).1
          ∙ put-same key _ (D.view w.server))
    ]

    weaken :
        (n : ℕ) (ks : Keyspace) → leb 4 n ≡ true → Guessed key digest n ks → Guessed key digest 4 ks
    weaken n ks le (gone absent) = gone absent
    weaken n ks le (counts m left more stored) = counts m left (ground arith) stored

    refused :
        (g : Text) (w : World o)
        → Guessed key digest 4 (D.view w.server)
        → (consume_code o settings email purpose g w).0 ≡ returns false
    refused g w (gone absent) = (consume_code-absent o D settings email purpose g w absent).0
    refused g w (counts m left le stored) =
        (consume_code-spent o D settings email purpose g w digest m left h stored le).0

    -- None of the guesses has the digest of the code.
    unfoldable pub all_wrong : List Text → Bool
    all_wrong [] = true
    all_wrong (g ∷ gs) = not (text_eq digest (o.sha256_hex g)) && all_wrong gs

    -- The world after a list of guesses.
    unfoldable pub after_guesses : List Text → World o → World o
    after_guesses [] w = w
    after_guesses (g ∷ gs) w = after_guesses gs (consume_code o settings email purpose g w).1

    wrong_guesses :
        (gs : List Text) (n : ℕ) (w : World o)
        → all_wrong gs ≡ true
        → Guessed key digest n (D.view w.server)
        → Guessed key digest (length gs + n) (D.view (after_guesses gs w).server)
    unfolding all_wrong after_guesses
    wrong_guesses [] n w wrong guessed = let e : 0 + n ≡ n = omega arith in rw e guessed
    wrong_guesses (g ∷ gs) n w wrong guessed =
        let w' = (consume_code o settings email purpose g w).1 in
        let now = wrong_guess n g w (ground arith) guessed in
        let e : length gs + suc n ≡ suc (length gs) + n = omega arith in
        rw e at (wrong_guesses gs (suc n) w' (ground arith) now)

    -- On a documented Redis, where the code that is stored with no attempts has a digest without a
    -- colon, and at least four guesses followed, none with that digest, every further guess is
    -- refused, the right code too.
    pub consume_code-bounded :
        (gs : List Text) (code : Text) (left : Option ℕ) (w : World o)
        → D.view w.server key ≡ some (code_entry digest 0 left)
        → all_wrong gs ≡ true
        → leb 4 (length gs) ≡ true
        → (consume_code o settings email purpose code (after_guesses gs w)).0 ≡ returns false
    consume_code-bounded gs code left w stored wrong many = refused code (after_guesses gs w) (
        weaken (length gs + 0) _ (ground arith)
          (wrong_guesses gs 0 w wrong (counts 0 left refl stored)))

    -- On a documented Redis, where the stored code has the digest of the code that is offered, that
    -- digest has no colon, and fewer than four wrong guesses are counted, the code is accepted. The
    -- next call refuses any code, and then every key but the code's holds what it held.
    pub consume_code-once :
        (code again : Text) (n : ℕ) (left : Option ℕ) (w : World o)
        → D.view w.server key ≡ some (code_entry digest n left)
        → leb 4 n ≡ false
        → text_eq digest (o.sha256_hex code) ≡ true
        → let (r, w') = consume_code o settings email purpose code w in
          let (r', w'') = consume_code o settings email purpose again w' in
          (r ≡ returns true)
          × (r' ≡ returns false)
          × (D.view w''.server ≡ drop key (D.view w.server))
    consume_code-once code again n left w stored fresh right =
        let (r, kept) =
          consume_code-right o D settings email purpose code w digest n left h stored fresh right in
        let absent = ap (λ (ks : Keyspace). ks key) kept ∙ drop-same key (D.view w.server) in
        let (r', kept') =
          consume_code-absent o D settings email purpose again
            (consume_code o settings email purpose code w).1 absent in
        (r, r', kept' ∙ kept)
