-- ===== src/Start/Schemes.antt =====
-- In cmd/main.go a controller is set up after the schemes of the objects that it reads.
use gitops_operator.Base.{Bool, List}
use mathlib.Core.List.{Mem}
use gitops_operator.Start.{Scheme, Step, StartSettings, scheme_steps}

module _ (c : StartSettings) where
  Registered : Scheme → Type 0
  Registered scheme = Mem (Step.register scheme) (scheme_steps c)
