-- ===== src/Cache.antt =====
-- internal/cache/cache.go: the interface `Cache`, for values of one type. Each operation stands for
-- a call at one moment; `Get` is in the implementations.
pub mod Memory
pub mod Redis
use hermes_waf.Prelude.{Str, Bool, Option}
use hermes_waf.Prelude.Results.{Result}

pub record Cache (V : Type 0) : Type 1 where
  pub State : Type 0
  pub set : Str → V → State → Option Str × State
  pub delete : Str → State → Option Str × State
  pub exists : Str → State → Result Str Bool
