-- ===== src/Waf.antt =====
-- The package internal/waf, which the repository does not hold: `waf.Config` as the callers fill it
-- in, and `waf.NewEngine` as a parameter.
use hermes_waf.Prelude.{ℕ, Str, Bool, List}
use hermes_waf.Prelude.Int64.{Int64}
use hermes_waf.Prelude.Results.{Result}

pub record WafConfig : Type 0 where
  pub rules_files : List Str
  pub request_body_access : Bool
  pub request_body_limit : Int64
  pub response_body_access : Bool
  pub response_body_limit : Int64
  pub audit_log_enabled : Bool
  pub default_action : Str

-- `new_engine n config` is what the call of `waf.NewEngine` after `n` others returns.
pub record Waf : Type 1 where
  pub Engine : Type 0
  pub new_engine : ℕ → WafConfig → Result Str Engine
