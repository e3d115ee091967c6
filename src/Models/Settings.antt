-- ===== src/Models/Settings.antt =====
-- internal/models/settings.go: the runtime settings and their check. Numbers are int64 patterns,
-- texts are bytes. An error is which check failed first, by its place among them; the messages are
-- left out. strings.TrimSpace, url.Parse (to a scheme and a host) and the test of the float
-- multiplier, given by its bits, are parameters. CreatedAt and the like play no part.
pub mod Accepted
mod Examples
use wildtoken.Prelude.{
  ℕ, suc, ◌+◌, ◌*◌, ◌^◌, Bool, true, false, not, ◌||◌, Option, none, some, List, [], ◌∷◌, ltb,
  if◌then◌else◌, length,
}
use wildtoken.Prelude.Int64
use wildtoken.Text.{Text, text_eq}

pub record RuntimeSettings : Type 0 where
  pub log_body_keep_count : ℕ
  pub log_retention_days : ℕ
  pub log_body_max_bytes : ℕ
  pub max_retries : ℕ
  pub same_upstream_retry_interval_ms : ℕ
  pub auto_weight_failure_penalty : ℕ
  pub auto_weight_success_increment : ℕ
  pub auto_weight_recovery_increment : ℕ
  pub auto_weight_recovery_interval_seconds : ℕ
  pub proxy_enabled : Bool
  pub proxy_url : Text
  pub default_upstream_timeout_seconds : ℕ
  pub image_storage_max_mb : ℕ
  pub dashboard_multiplier : ℕ
  pub revision : ℕ

abbrev pub default_log_body_keep_count : ℕ
default_log_body_keep_count = 100

abbrev pub default_log_retention_days : ℕ
default_log_retention_days = 30

abbrev pub default_log_body_max_bytes : ℕ
default_log_body_max_bytes = 200_000

abbrev pub default_max_retries : ℕ
default_max_retries = 1

abbrev pub default_same_upstream_retry_interval_ms : ℕ
default_same_upstream_retry_interval_ms = 1000

abbrev pub default_auto_weight_failure_penalty : ℕ
default_auto_weight_failure_penalty = 20

abbrev pub default_auto_weight_success_increment : ℕ
default_auto_weight_success_increment = 5

abbrev pub default_auto_weight_recovery_increment : ℕ
default_auto_weight_recovery_increment = 10

abbrev pub default_auto_weight_recovery_interval_seconds : ℕ
default_auto_weight_recovery_interval_seconds = 60

abbrev pub default_image_storage_max_mb : ℕ
default_image_storage_max_mb = 10_240

abbrev pub max_image_storage_max_mb : ℕ
max_image_storage_max_mb = 2 ^ 20

abbrev pub max_log_body_keep_count : ℕ
max_log_body_keep_count = 100_000

abbrev pub max_log_body_max_bytes : ℕ
max_log_body_max_bytes = 128 * 2 ^ 20

-- The bits of the float 1.
abbrev pub float_one : ℕ
float_one = 1023 * 2 ^ 52

abbrev pub default_runtime_settings : RuntimeSettings
default_runtime_settings = record {
  log_body_keep_count = default_log_body_keep_count;
  log_retention_days = default_log_retention_days;
  log_body_max_bytes = default_log_body_max_bytes;
  max_retries = default_max_retries;
  same_upstream_retry_interval_ms = default_same_upstream_retry_interval_ms;
  auto_weight_failure_penalty = default_auto_weight_failure_penalty;
  auto_weight_success_increment = default_auto_weight_success_increment;
  auto_weight_recovery_increment = default_auto_weight_recovery_increment;
  auto_weight_recovery_interval_seconds = default_auto_weight_recovery_interval_seconds;
  proxy_enabled = false;
  proxy_url = [];
  default_upstream_timeout_seconds = 0;
  image_storage_max_mb = default_image_storage_max_mb;
  dashboard_multiplier = float_one;
  revision = 0;
}

pub data SettingsError : Type 0 where
  out_of_range : ℕ → SettingsError
  bad_multiplier proxy_url_required proxy_url_too_long proxy_url_invalid proxy_url_scheme
        proxy_url_host revision_too_low :
      SettingsError

pub record Check : Type 0 where
  pub value : ℕ
  pub least : ℕ
  pub most : ℕ

abbrev pub checks : RuntimeSettings → List Check
checks s =
    record { value = s.log_body_keep_count; least = 1; most = max_log_body_keep_count }
    ∷ record { value = s.log_retention_days; least = 1; most = 3650 }
    ∷ record { value = s.log_body_max_bytes; least = 0; most = max_log_body_max_bytes }
    ∷ record { value = s.max_retries; least = 0; most = 5 }
    ∷ record { value = s.same_upstream_retry_interval_ms; least = 0; most = 60_000 }
    ∷ record { value = s.auto_weight_failure_penalty; least = 0; most = 100 }
    ∷ record { value = s.auto_weight_success_increment; least = 0; most = 100 }
    ∷ record { value = s.auto_weight_recovery_increment; least = 0; most = 100 }
    ∷ record { value = s.auto_weight_recovery_interval_seconds; least = 1; most = 3600 }
    ∷ record { value = s.default_upstream_timeout_seconds; least = 0; most = 3600 }
    ∷ record { value = s.image_storage_max_mb; least = 0; most = max_image_storage_max_mb }
    ∷ []

unfoldable pub fails : Check → Bool
fails c = Int64.lt c.value c.least || Int64.lt c.most c.value

-- The place of the first check that fails.
unfoldable pub first_failure : ℕ → List Check → Option ℕ
unfolding fails
first_failure i [] = none
first_failure i (c ∷ cs) = let rest = first_failure (i + 1) cs in if fails c then some i else rest

abbrev pub is_proxy_scheme : Text → Bool
is_proxy_scheme s =
    text_eq s (b'h' ∷ b't' ∷ b't' ∷ b'p' ∷ [])
    || text_eq s (b'h' ∷ b't' ∷ b't' ∷ b'p' ∷ b's' ∷ [])
    || text_eq s (b's' ∷ b'o' ∷ b'c' ∷ b'k' ∷ b's' ∷ b'5' ∷ [])
    || text_eq s (b's' ∷ b'o' ∷ b'c' ∷ b'k' ∷ b's' ∷ b'5' ∷ b'h' ∷ [])

module _ (trim_space : Text → Text) (parse_url : Text → Option (Text × Text))
    (multiplier_fits : ℕ → Bool) where
  unfoldable pub validate_proxy_url : Text → Bool → Option SettingsError
  validate_proxy_url value enabled =
      let trimmed = trim_space value in
      let parsed : Option SettingsError = elim (parse_url trimmed) [
        | none ↦ some proxy_url_invalid
        | some (scheme, host) ↦
            (if not (is_proxy_scheme scheme)
              then some proxy_url_scheme
              else if text_eq host []
              then some proxy_url_host
              else none)
      ] in
      if text_eq trimmed []
      then (if enabled then some proxy_url_required else none)
      else if ltb 500 (length trimmed)
      then some proxy_url_too_long
      else parsed

  unfoldable pub validate : RuntimeSettings → Option SettingsError
  unfolding first_failure validate_proxy_url
  validate s = elim (first_failure 0 (checks s)) [
    | some i ↦ some (out_of_range i)
    | none ↦
        (if not (multiplier_fits s.dashboard_multiplier)
          then some bad_multiplier
          else validate_proxy_url s.proxy_url s.proxy_enabled)
  ]

  -- RuntimeSettingsIn.Validate: what was entered, over the defaults. All the fields that Validate
  -- reads are entered, so only the revision is put back.
  unfoldable pub validate_in : RuntimeSettings → Option SettingsError
  unfolding validate
  validate_in entered =
      if Int64.lt entered.revision 1
      then some revision_too_low
      else validate (record entered { revision = default_runtime_settings.revision })
