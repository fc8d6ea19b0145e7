-- ===== src/Config/Examples.antt =====
-- A small configuration.
use rage.Prelude.{Option, [], if◌then◌else◌, none, refl, some, true, ◌==◌, ◌∷◌, ◌≡◌}
use rage.Config.{
  SandboxMode, strict, loose, RageConfig, default_config, Globset, forward_slashes,
  resolve_sandbox_mode, matches_policy, first_match, FirstDecides, resolve_sandbox_mode-first,
}

-- The one glob that is known selects everything.
abbrev globset : Globset
globset selector = if selector == "**" then some (λ path. true) else none

abbrev config : RageConfig
config = record default_config {
  policies =
      record { selector = "["; sandbox = some strict }
      ∷ record { selector = "**"; sandbox = none }
      ∷ record { selector = "**"; sandbox = some loose }
      ∷ [];
}

resolve_sandbox_mode_third : resolve_sandbox_mode globset config "packages/core" ≡ loose
unfolding resolve_sandbox_mode first_match matches_policy forward_slashes
resolve_sandbox_mode_third = refl

resolve_sandbox_mode-first_example :
    (o : Option SandboxMode) × FirstDecides globset
      (forward_slashes "packages/core")
      config.policies
      o
    × (resolve_sandbox_mode globset config "packages/core"
        ≡ (elim o [ some mode ↦ mode | none ↦ config.sandbox_default ]))
resolve_sandbox_mode-first_example = resolve_sandbox_mode-first globset config "packages/core"
