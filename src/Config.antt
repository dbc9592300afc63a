-- ===== src/Config.antt =====
-- internal/config/config.go, over an environment: the text of each variable, empty where it is unset.
use vnode.Base.{
  Bool-cases, inl, inr, refl, ◌≡◌, String, Bool, Option, none, some, ◌==◌, if◌then◌else◌,
}
use vnode.Base.Errors.{Error, errorf}

pub record Config : Type 0 where
  pub metrics_addr : String
  pub health_probe_addr : String
  pub leader_election : Bool
  pub leader_election_id : String
  pub default_runtime_class : String
  pub host_namespace : String

unfoldable pub env_or_default : (String → String) → String → String → String
env_or_default env key fallback = if env key == "" then fallback else env key

unfoldable pub default_config : (String → String) → Config
unfolding env_or_default
default_config env = record {
  metrics_addr = env_or_default env "METRICS_ADDR" ":8080";
  health_probe_addr = env_or_default env "HEALTH_PROBE_ADDR" ":8081";
  leader_election = env "LEADER_ELECTION" == "true";
  leader_election_id = "vnode-operator.kroderdev.io";
  default_runtime_class = env_or_default env "DEFAULT_RUNTIME_CLASS" "";
  host_namespace = env_or_default env "HOST_NAMESPACE" "vnode-system";
}

unfoldable pub validate_config : Config → Option Error
validate_config c =
    if c.host_namespace == "" then some (errorf "HOST_NAMESPACE is required") else none

-- Whatever the environment, the configuration made from it is valid: `Validate` has no error for it.
pub validate_config-default_config :
    (env : String → String) → validate_config (default_config env) ≡ none
unfolding validate_config default_config env_or_default
validate_config-default_config env = elim (Bool-cases (env "HOST_NAMESPACE" == "")) [
  | inl e ↦ rw e refl
  | inr e ↦ rw (e, e) refl
]
