-- ===== src/Api/Dto.antt =====
-- backend/src/features/auth/auth_dto.py: the bodies of requests and what makes them valid.
use gamely.Base.{ℕ, zero, suc, Bool, true, false, [], ◌∷◌, ◌&&◌, leb, length, Text}

pub record CredentialsRequest : Type 0 where
  pub email : Text
  pub password : Text

pub record EmailRequest : Type 0 where
  pub email : Text

pub record VerifyEmailRequest : Type 0 where
  pub email : Text
  pub code : Text

pub record ResetPasswordRequest : Type 0 where
  pub email : Text
  pub code : Text
  pub password : Text

pub record ChangePasswordRequest : Type 0 where
  pub current_password : Text
  pub new_password : Text

pub record OauthTokenRequest : Type 0 where
  pub id_token : Text
  pub nonce : Text

pub record EmailAvailabilityResponse : Type 0 where
  pub available : Bool

-- `token_type` is always `"bearer"`.
pub record TokenResponse : Type 0 where
  pub access_token : Text

abbrev pub password_max_length : ℕ
password_max_length = 128

-- `Field(max_length=n)`, which counts characters.
abbrev pub fits : ℕ → Text → Bool
fits n value = leb (length value) n

unfoldable pub is_valid_credentials : CredentialsRequest → Bool
is_valid_credentials body = fits 320 body.email && fits password_max_length body.password

unfoldable pub is_valid_email : EmailRequest → Bool
is_valid_email body = fits 320 body.email

unfoldable pub is_valid_change : ChangePasswordRequest → Bool
is_valid_change body =
    fits password_max_length body.current_password && fits password_max_length body.new_password

unfoldable pub is_valid_oauth : OauthTokenRequest → Bool
is_valid_oauth body = fits 16384 body.id_token && fits 256 body.nonce

-- `\d` matches the decimal digits of Unicode, which are the library's to say.
module _ (is_decimal : ℕ → Bool) where
  -- `^\d{n}$`
  abbrev pub is_digits : ℕ → Text → Bool
  is_digits zero [] = true
  is_digits zero (c ∷ cs) = false
  is_digits (suc n) [] = false
  is_digits (suc n) (c ∷ cs) = is_decimal c && is_digits n cs

  unfoldable pub is_valid_verify : VerifyEmailRequest → Bool
  is_valid_verify body = fits 320 body.email && is_digits 6 body.code

  unfoldable pub is_valid_reset : ResetPasswordRequest → Bool
  is_valid_reset body =
      fits 320 body.email && is_digits 6 body.code && fits password_max_length body.password
