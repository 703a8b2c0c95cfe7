-- ===== src/Auth/Service/Atomic.antt =====
-- `signup`, backend/src/features/auth/auth_service.py, over the committed tables.
use gamely.Base.{◌≡◌, refl, ◌∙◌, Bool, true, false, some, Text, arith, if◌then◌else◌, length, ltb}
use gamely.Errors.{
  Exec, Exception, Outcome, returns, raises, cancelled, continue, handle, ◌>>=◌, try_except,
}
use gamely.Database.Documented.{Documented}
use gamely.Outside.{Outside, World, draw}
use gamely.Auth.Repository.{commit}
use gamely.Auth.Codes.{verify_purpose}
use gamely.Auth.Service.{signup, create_account, check_password}
use gamely.Settings.{Settings}
use gamely.Auth.Service.Keeps.{
  tables, Keeps, abandon_account-Keeps, commit-returns, create_user-Keeps, draw-Keeps, if-Keeps,
  is_taken-Keeps, lift-Keeps, pure-Keeps, raise-Keeps, remember-Keeps, send_code-Keeps,
}

module _ (o : Outside) (D : Documented o.database) where
  -- A call that has committed nothing where it raises.
  pub record Undone {A : Type 0} (m : Exec (World o) A) : Type 0 where
    pub undone :
        (x : Exception) (w : World o) → (m w).0 ≡ raises x → tables o D (m w).1 ≡ tables o D w

  Keeps→Undone : {A : Type 0} {m : Exec (World o) A} → Keeps D m → Undone m
  Keeps→Undone h = record { undone = λ x w e. h.kept w }

  continue-Undone :
      {A B : Type 0} (f : A → Exec (World o) B) (r : Outcome A) (s : World o) (x : Exception)
      → ((a : A) → Undone (f a))
      → (continue f r s).0 ≡ raises x
      → tables o D (continue f r s).1 ≡ tables o D s
  continue-Undone f (returns a) s x h e = (h a).undone x s e
  continue-Undone f (raises y) s x h e = refl
  continue-Undone f cancelled s x h e = refl

  pub bind-Undone :
      {A B : Type 0} (m : Exec (World o) A) (f : A → Exec (World o) B)
      → Keeps D m
      → ((a : A) → Undone (f a))
      → Undone (m >>= f)
  bind-Undone m f hm hf = record {
    undone = λ x w e. continue-Undone f (m w).0 (m w).1 x hf e ∙ hm.kept w;
  }

  handle-Undone :
      {A : Type 0} (h : Exception → Exec (World o) A) (r : Outcome A) (s before : World o)
      (x : Exception)
      → ((y : Exception) → Keeps D (h y))
      → ((y : Exception) → r ≡ raises y → tables o D s ≡ tables o D before)
      → (handle h r s).0 ≡ raises x
      → tables o D (handle h r s).1 ≡ tables o D before
  handle-Undone h (returns a) s before x k b e = b x e
  handle-Undone h (raises y) s before x k b e = (k y).kept s ∙ b y refl
  handle-Undone h cancelled s before x k b e = b x e

  try_except-Undone :
      {A : Type 0} (m : Exec (World o) A) (h : Exception → Exec (World o) A)
      → Undone m
      → ((y : Exception) → Keeps D (h y))
      → Undone (try_except m h)
  try_except-Undone m h hm hh = record {
    undone = λ x w e. handle-Undone h (m w).0 (m w).1 w x hh (λ y raised. hm.undone y w raised) e;
  }

  returns_ne_raises : (x : Exception) (r : Outcome (Unit {0})) → r ≡ returns tt → r ≡ raises x → ⊥
  returns_ne_raises x r e e' = ground arith

  pub commit-Undone : Undone (commit o)
  commit-Undone = record { undone = λ x w e. absurd (returns_ne_raises x _ (commit-returns D w) e) }

  if-Undone :
      {A : Type 0} (b : Bool) (m n : Exec (World o) A)
      → Undone m
      → Undone n
      → Undone (if b then m else n)
  if-Undone true m n hm hn = hm
  if-Undone false m n hm hn = hn

  module _ (settings : Settings) where
    create_account-Undone :
        (email password : Text) → Undone (create_account o settings email password)
    unfolding create_account
    create_account-Undone email password =
        bind-Undone (draw o (λ salt. o.hash_password salt password)) _ (draw-Keeps D _) (λ hashed.
          bind-Undone _ _ (create_user-Keeps D email (some hashed) false) (λ user.
            bind-Undone _ _ (remember-Keeps D settings email) (λ done.
              bind-Undone _ _ (send_code-Keeps D settings email verify_purpose)
                (λ done. commit-Undone))))

    check_password-Keeps : (password : Text) → Keeps D (check_password o settings password)
    unfolding check_password
    check_password-Keeps password =
        if-Keeps D (ltb (length password) 12) _ _ (raise-Keeps D _) (pure-Keeps D _)

    signup-Undone : (value password : Text) → Undone (signup o settings value password)
    unfolding signup
    signup-Undone value password = bind-Undone _ _ (lift-Keeps D _) (λ email.
        bind-Undone _ _ (check_password-Keeps password) (λ done.
          bind-Undone _ _ (is_taken-Keeps D settings email) (λ taken.
            if-Undone taken _ _ (Keeps→Undone (raise-Keeps D _)) (
              try_except-Undone _ _ (create_account-Undone email password)
                (abandon_account-Keeps D settings email)))))

    -- On a documented database, a `signup` that raises has committed nothing, whatever raised and
    -- whatever Redis and the broker did meanwhile: the tables that others see are as they were.
    pub signup-undone :
        (value password : Text) (x : Exception) (w : World o)
        → (signup o settings value password w).0 ≡ raises x
        → tables o D (signup o settings value password w).1 ≡ tables o D w
    signup-undone value password x w raised = (signup-Undone value password).undone x w raised
