-- ===== src/Models/Settings/Examples.antt =====
-- The default settings, and the theorem at them.
use wildtoken.Prelude.{ℕ, ◌*◌, ◌≤◌, ◌≡◌, refl, Bool, true, Option, none, some, arith}
use wildtoken.Prelude.Int64
use wildtoken.Clock.{second}
use wildtoken.Text.{Text, text_eq}
use wildtoken.Proxy.Health.{new_policy}
use wildtoken.Proxy.Health.Recovery.{IsSane}
use wildtoken.Models.Settings.{
  default_runtime_settings, validate, validate_in, validate_proxy_url, revision_too_low,
}
use wildtoken.Models.Settings.Accepted.{validate-IsSane}

abbrev as_is : Text → Text
as_is t = t

abbrev no_url : Text → Option (Text × Text)
no_url t = none

abbrev any_multiplier : ℕ → Bool
any_multiplier bits = true

defaults_pass : validate as_is no_url any_multiplier default_runtime_settings ≡ none
unfolding validate validate_proxy_url Int64.lt text_eq
defaults_pass = refl

defaults_refused :
    validate_in as_is no_url any_multiplier default_runtime_settings ≡ some revision_too_low
unfolding validate_in Int64.lt
defaults_refused = refl

validate-IsSane_example :
    IsSane (new_policy 20 5 10 60)
    × ((new_policy 20 5 10 60).recovery_interval ≡ 60 * second)
    × (second ≤ (new_policy 20 5 10 60).recovery_interval)
    × ((new_policy 20 5 10 60).recovery_interval ≤ 3600 * second)
validate-IsSane_example =
    validate-IsSane as_is no_url any_multiplier default_runtime_settings (omega arith) (omega arith)
      (omega arith) (omega arith) defaults_pass
