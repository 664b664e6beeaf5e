-- ===== src/Adapter.antt =====
-- crates/dag-ml-data-core/src/adapter.rs: the ports of a model, the adapters between representations
-- and the registry of the adapters. `J` is `serde_json::Value`, which this code stores and never reads.
pub mod Search
pub mod Paths
pub mod Edges
pub mod Fuel
pub mod Terminates
pub mod Reach
pub mod Registry
pub mod Register
pub mod Sound
pub mod Resolve
pub mod Answers
use dag_ml_data.Common.{
  ℕ, Bool, true, false, not, ◌&&◌, ◌||◌, Option, none, List, [], ◌∷◌, ◌++◌, nat_eq, is_empty, all,
}
use dag_ml_data.Order.{nat_ord, list_ord}
use dag_ml_data.Text.{Text, text, is_blank}
use dag_ml_data.Collections.{Map, put, contains_key, contains, insert}
use dag_ml_data.Error.{validation, Result, ok, ◌>>=◌, ◌>>◌, done, refuse}
use dag_ml_data.Text.{is_ascii_alphanumeric}
use dag_ml_data.Relation.Folds.{quote}
use dag_ml_data.Plan.{FitScope}

pub record InputPortSpec : Type 0 where
  pub name : Text
  pub accepted_representations : List Text
  pub accepted_types : List Text
  pub rank : Option ℕ
  pub multi_source : Bool
  pub optional : Bool

pub record ModelInputSpec (J : Type 0) : Type 0 where
  pub ports : List InputPortSpec
  pub default_fusion : Option J

pub record AdapterSpec (J : Type 0) : Type 0 where
  pub id : Text
  pub version : Text
  pub input_type : Text
  pub input_representation : Text
  pub output_type : Text
  pub output_representation : Text
  pub cost : ℕ
  pub lossy : Bool
  pub supervised : Bool
  pub stateful : Bool
  pub deterministic : Bool
  pub fit_scope : FitScope
  pub params : Map Text J

pub record PlanningPolicy : Type 0 where
  pub allow_lossy : Bool
  pub allow_stateful : Bool
  pub allow_supervised : Bool
  pub forbidden_adapters : List Text
  pub preferred_adapters : List Text
  pub require_user_choice_on_ambiguity : Bool
  pub max_hops : Option ℕ

-- `PlanningPolicy::default`.
abbrev pub default_policy : PlanningPolicy
default_policy = record {
  allow_lossy = false;
  allow_stateful = false;
  allow_supervised = false;
  forbidden_adapters = [];
  preferred_adapters = [];
  require_user_choice_on_ambiguity = true;
  max_hops = none;
}

-- A `RepresentationNode`: the type, then the representation, in the derived order.
abbrev pub RepresentationNode : Type 0
RepresentationNode = Text × Text

abbrev pub is_name_char : ℕ → Bool
is_name_char c =
    is_ascii_alphanumeric c
    || nat_eq c b'_'
    || nat_eq c b'-'
    || nat_eq c b'.'
    || nat_eq c b':'
    || nat_eq c b'/'

unfoldable pub validate_name : Text → Text → Result (Unit {0})
validate_name kind value = do
  refuse (is_blank value) (validation (kind ++ text " name is empty"))
  refuse (not (all is_name_char value))
      (validation (kind ++ quote " `" value "` contains unsupported characters"))

-- `InputPortSpec::validate`.
unfoldable pub validate_port : InputPortSpec → Result (Unit {0})
unfolding validate_name
validate_port port = do
  validate_name (text "input port") port.name
  refuse (is_empty port.accepted_representations)
      (validation (quote "input port `" port.name "` accepts no representations"))
  refuse (is_empty port.accepted_types)
      (validation (quote "input port `" port.name "` accepts no types"))

unfoldable pub check_ports : List Text → List InputPortSpec → Result (Unit {0})
unfolding validate_port
check_ports names [] = done
check_ports names (port ∷ ports) = do
  validate_port port
  refuse (contains port.name names)
      (validation (quote "duplicate model input port `" port.name "`"))
  check_ports (insert port.name names) ports

-- `ModelInputSpec::validate`.
unfoldable pub validate_input : {J : Type 0} → ModelInputSpec J → Result (Unit {0})
unfolding check_ports
validate_input spec = do
  refuse (is_empty spec.ports) (validation (text "model input spec contains no ports"))
  check_ports [] spec.ports

abbrev pub is_stateless : FitScope → Bool
is_stateless FitScope.stateless = true
is_stateless _ = false

module _ {J : Type 0} where
  -- `AdapterSpec::validate`.
  unfoldable pub validate_adapter : AdapterSpec J → Result (Unit {0})
  unfolding validate_name
  validate_adapter adapter = do
    validate_name (text "adapter") adapter.id
    validate_name (text "adapter version") adapter.version
    refuse (not adapter.deterministic)
        (validation (quote "adapter `" adapter.id "` is not deterministic"))
    refuse (adapter.stateful && is_stateless adapter.fit_scope)
        (validation (quote "stateful adapter `" adapter.id "` cannot use stateless fit scope"))

  -- `AdapterSpec::source`, `AdapterSpec::target`.
  abbrev pub source : AdapterSpec J → RepresentationNode
  source adapter = (adapter.input_type, adapter.input_representation)

  abbrev pub target : AdapterSpec J → RepresentationNode
  target adapter = (adapter.output_type, adapter.output_representation)

-- `AdapterRegistry`, the map of its one field.
abbrev pub AdapterRegistry : Type 0 → Type 0
AdapterRegistry J = Map Text (AdapterSpec J)

module _ {J : Type 0} where
  unfoldable pub register_adapter : AdapterRegistry J → AdapterSpec J → Result (AdapterRegistry J)
  unfolding validate_adapter
  register_adapter registry adapter = do
    validate_adapter adapter
    refuse (contains_key adapter.id registry)
        (validation (quote "duplicate adapter id `" adapter.id "`"))
    ok (put adapter.id adapter registry)

  unfoldable pub register_all :
      AdapterRegistry J → List (AdapterSpec J) → Result (AdapterRegistry J)
  unfolding register_adapter
  register_all registry [] = ok registry
  register_all registry (adapter ∷ adapters) =
      register_adapter registry adapter >>= λ registry'. register_all registry' adapters

  -- `AdapterRegistry::from_spec`, of the adapters of the spec.
  unfoldable pub from_spec : List (AdapterSpec J) → Result (AdapterRegistry J)
  unfolding register_all
  from_spec adapters = register_all [] adapters
