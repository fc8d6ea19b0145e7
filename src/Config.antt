-- ===== src/Config.antt =====
-- crates/pipeline-config: src/config.rs (the configuration) and src/policy.rs (which sandbox mode a
-- package gets). `globset` is a parameter; a path is the text that it is rendered to.
mod Examples
use Prim.Native.Char.{Char, code}
use Prim.Native.String.{◌++◌ as str_append}
use rage.Prelude.{
  Assoc, Bool, Bool-cases, List, Option, Option-cases, String, [], codes, eqb, false, if◌then◌else◌,
  inl, inr, none, not, refl, some, true, ℕ, ◌&&◌, ◌||◌, ◌∷◌, ◌≡◌,
}

pub data SandboxMode : Type 0 where
  strict observed loose : SandboxMode

-- `#[default]`
abbrev pub default_mode : SandboxMode
default_mode = strict

pub record Policy : Type 0 where
  pub selector : String
  pub sandbox : Option SandboxMode

pub record PipelineTaskConfig : Type 0 where
  pub skip_packages : List String

-- The fields of `RageConfig` that the scheduler reads.
pub record RageConfig : Type 0 where
  pub plugins : List String
  pub sandbox_default : SandboxMode
  pub policies : List Policy
  pub pipeline : Assoc PipelineTaskConfig
  pub max_concurrency : Option ℕ
  pub cold_concurrency : Option ℕ

abbrev pub default_config : RageConfig
default_config = record {
  plugins = [];
  sandbox_default = default_mode;
  policies = [];
  pipeline = [];
  max_concurrency = none;
  cold_concurrency = none;
}

-- `globset::Glob::new(selector)`, `none` where it is refused, and then `is_match`.
abbrev pub Globset : Type 0
Globset = String → Option (String → Bool)

-- `path.ends_with('/')`
abbrev pub ends_in_slash : List ℕ → Bool
ends_in_slash [] = false
ends_in_slash (c ∷ []) = eqb c b'/'
ends_in_slash (c ∷ d ∷ cs) = ends_in_slash (d ∷ cs)

abbrev slash : Char
slash = "/"

-- `replace('\\', "/")`
unfoldable pub forward_slashes : String → String
forward_slashes String.[] = ""
forward_slashes (String.◌∷◌ c s) =
    let rest = forward_slashes s in String.◌∷◌ (if eqb (code c) 92 then slash else c) rest

module _ (globset : Globset) where
  abbrev pub selects : (String → Bool) → String → Bool
  selects is_match path =
      is_match path || (not (ends_in_slash (codes path)) && is_match (str_append path "/"))

  -- `matches_policy`
  unfoldable pub matches_policy : Policy → String → Option SandboxMode
  matches_policy policy path = elim (globset policy.selector) [
    | none ↦ none
    | some is_match ↦ if selects is_match path then policy.sandbox else none
  ]

  unfoldable pub first_match : List Policy → String → Option SandboxMode
  unfolding matches_policy
  first_match [] path = none
  first_match (p ∷ ps) path = elim (matches_policy p path) [
    | some mode ↦ some mode
    | none ↦ first_match ps path
  ]

  -- `resolve_sandbox_mode`
  unfoldable pub resolve_sandbox_mode : RageConfig → String → SandboxMode
  unfolding first_match forward_slashes
  resolve_sandbox_mode config path = elim (first_match config.policies (forward_slashes path)) [
    | some mode ↦ mode
    | none ↦ config.sandbox_default
  ]

  -- A policy decides a path: its selector is a glob that selects the path, and it names a mode.
  pub record Decides (p : Policy) (path : String) (mode : SandboxMode) : Type 0 where
    pub is_match : String → Bool
    pub glob : globset p.selector ≡ some is_match
    pub selected : selects is_match path ≡ true
    pub names : p.sandbox ≡ some mode

  matches_policy-Decides :
      (p : Policy) (path : String) (mode : SandboxMode)
      → matches_policy p path ≡ some mode
      → Decides p path mode
  unfolding matches_policy
  matches_policy-Decides p path mode e = elim (Option-cases (globset p.selector)) [
    | inl q ↦ absurd (cc (rw (q, matches_policy) at e))
    | inr (m, q) ↦ elim (Bool-cases (selects m path)) [
      | inl s ↦ record {
        is_match = m;
        glob = q;
        selected = s;
        names = rw (q, s, matches_policy) at e;
      }
      | inr s ↦ absurd (cc (rw (q, s, matches_policy) at e))
    ]
  ]

  Decides-matches_policy :
      (p : Policy) (path : String) (mode : SandboxMode)
      → Decides p path mode
      → matches_policy p path ≡ some mode
  unfolding matches_policy
  Decides-matches_policy p path mode d = rw (d.glob, matches_policy) (rw d.selected d.names)

  -- The mode of a path is that of the first policy that decides it, all before it leaving it open;
  -- or it is the default, when every policy leaves it open.
  pub data FirstDecides (path : String) : List Policy → Option SandboxMode → Type 0 where
    decided :
        {p : Policy} {ps : List Policy} {mode : SandboxMode}
        → Decides p path mode
        → FirstDecides path (p ∷ ps) (some mode)
    passed :
        {p : Policy} {ps : List Policy} {o : Option SandboxMode}
        → ((mode : SandboxMode) → ¬ Decides p path mode)
        → FirstDecides path ps o
        → FirstDecides path (p ∷ ps) o
    exhausted : FirstDecides path [] none

  first_match-FirstDecides :
      (ps : List Policy) (path : String) → FirstDecides path ps (first_match ps path)
  unfolding first_match
  first_match-FirstDecides [] path = exhausted
  first_match-FirstDecides (p ∷ ps) path = elim (Option-cases (matches_policy p path)) [
    | inr (mode, e) ↦ rw (e, first_match) (decided (matches_policy-Decides p path mode e))
    | inl e ↦
        rw (e, first_match)
          (passed (λ mode d. cc (Decides-matches_policy p path mode d, e))
            (first_match-FirstDecides ps path))
  ]

  -- Policies are tried in order and the first that decides the path, with its slashes forward, wins; a selector that is no
  -- glob, does not select the path, or names no mode is passed over; with none left the mode is
  -- the default of the configuration.
  pub resolve_sandbox_mode-first :
      (config : RageConfig) (path : String)
      → (o : Option SandboxMode) × FirstDecides (forward_slashes path) config.policies o
        × (resolve_sandbox_mode config path
            ≡ (elim o [ some mode ↦ mode | none ↦ config.sandbox_default ]))
  unfolding resolve_sandbox_mode
  resolve_sandbox_mode-first config path = (
    first_match config.policies (forward_slashes path),
    first_match-FirstDecides config.policies (forward_slashes path),
    refl,
  )
