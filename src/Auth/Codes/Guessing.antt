-- ===== src/Auth/Codes/Guessing.antt =====
-- One call of `_consume_code`, backend/src/features/auth/auth_service.py.
use gamely.Base.{
  ℕ, ◌+◌, ◌≡◌, refl, ◌∙◌, ap, Bool, true, false, Option, none, some, Text, text_eq, has_char, leb,
  max, split_once-append,
}
use gamely.Base.Decimal.{decimal, parse_int-decimal}
use gamely.Errors.{returns, pure, ◌>>◌}
use gamely.Redis.{Command, SetMode, single}
use gamely.Redis.Documented.{Documented, Keyspace, Entry, str, put, drop, ttl_left}
use gamely.Auth.Codes.{
  code_key, payload, parse_payload, at_least_one, judge, consume_code, delete_code, count_attempt,
}
use gamely.Settings.{Settings}
use gamely.Outside.{Outside, World, command}

-- What `_send_code` and `_consume_code` write, `_consume_code` reads back.
pub parse_payload-payload :
    (digest : Text) (n : ℕ)
    → has_char b':' digest ≡ false
    → parse_payload (payload digest n) ≡ returns (digest, n)
unfolding parse_payload payload
parse_payload-payload digest n h =
    rw (split_once-append b':' digest (decimal n) h) (rw (parse_int-decimal n))

-- The entry of a code with this digest and this many wrong guesses.
abbrev pub code_entry : Text → ℕ → Option ℕ → Entry
code_entry digest n left = record { value = str (payload digest n); left = left }

module _ (o : Outside) (D : Documented o.redis) (settings : Settings) where
  module _ (key : Text) (w : World o) where
    delete_code-eq :
        (b : Bool)
        → let (r, w') = delete_code o settings key b w in
          (r ≡ returns b) × (D.view w'.server ≡ drop key (D.view w.server))
    unfolding delete_code
    delete_code-eq b = rw D.run_lem (refl, D.view-after _ w.server)

    set_key-eq :
        (v : Text) (left : ℕ) (b : Bool)
        → let (r, w') = (command o (Command.set key v (some left) SetMode.always) >> pure b) w in
          (r ≡ returns b)
          × (D.view w'.server
              ≡ put key (record { value = str v; left = some left }) (D.view w.server))
    set_key-eq v left b = rw D.run_lem (refl, D.view-after _ w.server)

    count_attempt-eq :
        (digest : Text) (n : ℕ) (left : Option ℕ)
        → D.view w.server key ≡ some (code_entry digest n left)
        → let (r, w') = count_attempt o settings key digest n w in
          (r ≡ returns false)
          × (D.view w'.server
              ≡ put key
                  (code_entry digest (n + 1) (some (at_least_one (ttl_left left))))
                  (D.view w.server))
    unfolding count_attempt
    count_attempt-eq digest n none h =
        let same = D.view-after (single (Command.ttl key)) w.server in
        rw (D.run_lem, h, D.run_lem)
          (refl, D.view-after _ _ ∙ ap (put key (code_entry digest (n + 1) (some 1))) same)
    count_attempt-eq digest n (some t) h =
        let same = D.view-after (single (Command.ttl key)) w.server in
        rw (D.run_lem, h, D.run_lem)
          (refl, D.view-after _ _ ∙ ap (put key (code_entry digest (n + 1) (some (max t 1)))) same)

  module _ (email purpose code : Text) (w : World o) where
    abbrev key : Text
    key = code_key purpose email

    -- A code that is absent is refused, and nothing changes.
    pub consume_code-absent :
        D.view w.server key ≡ none
        → let (r, w') = consume_code o settings email purpose code w in
          (r ≡ returns false) × (D.view w'.server ≡ D.view w.server)
    unfolding consume_code
    consume_code-absent h = rw (D.run_lem, h) (refl, D.view-after _ w.server)

    module _ (digest : Text) (n : ℕ) (left : Option ℕ) where
      abbrev w1 : World o
      w1 = record w { server = D.after (single (Command.get key)) w.server }

      -- A code that is stored is read, counted and compared.
      consume_code-stored :
          has_char b':' digest ≡ false
          → D.view w.server key ≡ some (code_entry digest n left)
          → consume_code o settings email purpose code w ≡ judge o settings key code (digest, n) w1
      unfolding consume_code
      consume_code-stored h stored = rw (D.run_lem, stored) (rw (parse_payload-payload digest n h))

      abbrev same : D.view w1.server ≡ D.view w.server
      same = D.view-after (single (Command.get key)) w.server

      module _ (h : has_char b':' digest ≡ false)
          (stored : D.view w.server key ≡ some (code_entry digest n left)) where
        -- After four wrong guesses the code is deleted, whatever the guess.
        pub consume_code-spent :
            leb 4 n ≡ true
            → let (r, w') = consume_code o settings email purpose code w in
              (r ≡ returns false) × (D.view w'.server ≡ drop key (D.view w.server))
        consume_code-spent spent =
            let (r, left) = delete_code-eq key w1 false in
            rw (consume_code-stored h stored) (rw spent (r, left ∙ ap (drop key) same))

        pub consume_code-right :
            leb 4 n ≡ false
            → text_eq digest (o.sha256_hex code) ≡ true
            → let (r, w') = consume_code o settings email purpose code w in
              (r ≡ returns true) × (D.view w'.server ≡ drop key (D.view w.server))
        consume_code-right fresh right =
            let (r, left) = delete_code-eq key w1 true in
            rw (consume_code-stored h stored) (rw (fresh, right) (r, left ∙ ap (drop key) same))

        pub consume_code-wrong :
            leb 4 n ≡ false
            → text_eq digest (o.sha256_hex code) ≡ false
            → let (r, w') = consume_code o settings email purpose code w in
              (r ≡ returns false)
              × (D.view w'.server
                  ≡ put key
                      (code_entry digest (n + 1) (some (at_least_one (ttl_left left))))
                      (D.view w.server))
        consume_code-wrong fresh wrong =
            let next = code_entry digest (n + 1) (some (at_least_one (ttl_left left))) in
            let (r, kept) =
              count_attempt-eq key w1 digest n left
                (ap (λ (ks : Keyspace). ks key) same ∙ stored) in
            rw (consume_code-stored h stored) (rw (fresh, wrong) (r, kept ∙ ap (put key next) same))
