-- ===== src/Middleware/Downstream/Examples.antt =====
-- A token whose rate is spent, and the theorem at its next request.
use wildtoken.Prelude.Int64
use wildtoken.Prelude.{ℕ, ◌≡◌, refl, false, some, none, [], arith, ◌*◌}
use wildtoken.Prelude.Assoc
use wildtoken.Text.{Text}
use wildtoken.Clock.{second}
use wildtoken.Proxy.Sse.{codes}
use wildtoken.Quota.Tracker.{outstanding}
use wildtoken.Middleware.Downstream.{
  Credential, Lookup, found, quota_exhausted, Gates, require_downstream,
}
use wildtoken.Middleware.Downstream.Refusals.{refusal_restores}

abbrev spent : Credential
spent = record {
  token_id = 7;
  token_name = codes "ci";
  group_id = 1;
  used_tokens = 500;
  limit_tokens = some 500;
  rate_limit = none;
  allowed_models = [];
}

abbrev any_token : Text → Lookup
any_token token = found spent

abbrev counted : Credential → Gates → Gates × ℕ
counted c g = (g, 200)

abbrev idle : Gates
idle = record { quotas = []; limiter = [] }

refusal_restores_example :
    outstanding
      (require_downstream any_token counted idle
        (codes "Bearer sk-1")
        []
        false
        (100 * second)).0.quotas
      7
    ≡ outstanding idle.quotas 7
unfolding require_downstream Assoc.get Int64.le
refusal_restores_example =
    refusal_restores any_token counted idle (codes "Bearer sk-1") [] false (100 * second)
      quota_exhausted 7 (λ token. omega arith) refl
