-- ===== src/Settings.antt =====
-- backend/src/application/environment/environment_manager.py: the fields of `Settings` and their
-- defaults. Connection strings and names stay native texts: the program only hands them on.
use Prim.Native.String.{String}
use gamely.Base.{ℕ, Bool, true, Text, codes, Option, none, []}

pub data SameSite : Type 0 where
  lax strict unrestricted : SameSite

pub record Settings : Type 0 where
  pub app_name : String
  pub auth_jwt_secret : Text
  pub auth_jwt_issuer : Text
  pub auth_jwt_audience : Text
  pub auth_access_token_minutes : ℕ
  pub auth_refresh_token_days : ℕ
  pub auth_code_minutes : ℕ
  pub auth_refresh_cookie_name : String
  pub auth_refresh_cookie_domain : Option String
  pub auth_refresh_cookie_path : String
  pub auth_refresh_cookie_secure : Bool
  pub auth_refresh_cookie_samesite : SameSite
  pub auth_email_filter_enabled : Bool
  pub auth_email_filter_capacity : ℕ
  pub auth_email_filter_bucket_size : ℕ
  pub auth_email_filter_expansion : ℕ
  pub auth_email_filter_max_iterations : ℕ
  pub auth_email_filter_rebuild_batch_size : ℕ
  pub auth_email_filter_rebuild_timeout_seconds : ℕ
  pub auth_email_filter_lock_seconds : ℕ
  pub auth_availability_limit : ℕ
  pub auth_signup_limit : ℕ
  pub auth_throttle_window_seconds : ℕ
  pub smtp_host : Text
  pub smtp_from : Text
  pub email_worker_concurrency : ℕ
  pub google_client_id : Text
  pub microsoft_client_id : Text
  pub microsoft_tenant_id : Text
  pub apple_client_id : Text

-- The defaults of the class.
abbrev pub default_settings : Settings
default_settings = record {
  app_name = "Games API";
  auth_jwt_secret = [];
  auth_jwt_issuer = codes "games-api";
  auth_jwt_audience = codes "games-api";
  auth_access_token_minutes = 15;
  auth_refresh_token_days = 30;
  auth_code_minutes = 10;
  auth_refresh_cookie_name = "games_refresh";
  auth_refresh_cookie_domain = none;
  auth_refresh_cookie_path = "/auth";
  auth_refresh_cookie_secure = true;
  auth_refresh_cookie_samesite = lax;
  auth_email_filter_enabled = true;
  auth_email_filter_capacity = 100_000;
  auth_email_filter_bucket_size = 4;
  auth_email_filter_expansion = 2;
  auth_email_filter_max_iterations = 20;
  auth_email_filter_rebuild_batch_size = 1000;
  auth_email_filter_rebuild_timeout_seconds = 30;
  auth_email_filter_lock_seconds = 300;
  auth_availability_limit = 20;
  auth_signup_limit = 10;
  auth_throttle_window_seconds = 60;
  smtp_host = [];
  smtp_from = [];
  email_worker_concurrency = 10;
  google_client_id = [];
  microsoft_client_id = [];
  microsoft_tenant_id = [];
  apple_client_id = [];
}
