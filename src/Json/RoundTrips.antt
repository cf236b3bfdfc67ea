-- ===== src/Json/RoundTrips.antt =====
-- What is written as JSON reads back as it was.
use netunicorn.Common.{
  String, Bool, all, true, false, Option, none, some, [], ◌∷◌, ◌==◌, ◌≡◌, refl, arith,
}
use netunicorn.Base.{
  NodeProperty, no_value, Properties, Node, infer_environments, new_node, Deployment, Contexts,
  Experiment, DeploymentExecutionResult,
}
use netunicorn.Base as base
use netunicorn.Director.Mediator.Experiments.{
  ExecutionResult, nothing, error_text, exception, results,
}
use netunicorn.Json.{
  text, optional, optional_of, text_of, All, entries, entries_of, Encoding, entries-back,
  elements-back, texts-back, dict-back, dict, dict_of,
}
use netunicorn.Json.Environments.{IsRegular, optional-back, environment-back}
use netunicorn.Json.Entities.{
  property_json, property_from, node_json, is_architecture, node_from, deployment_json, non_empty,
  deployment_from, contexts_json, contexts_from, experiment_json, experiment_from,
}

-- The property is not a set of texts, which would read back as a list.
abbrev pub is_not_set : NodeProperty → Bool
is_not_set (base.text_set ts) = false
is_not_set p = true

abbrev pub no_sets : Properties → Bool
no_sets ps = all (λ (k, p). is_not_set p) ps

property-back : (p : NodeProperty) → is_not_set p ≡ true → property_from (property_json p) ≡ some p
property-back no_value h = refl
property-back (base.text t) h = refl
property-back (base.number n) h = refl
property-back (base.decimal t) h = refl
property-back (base.texts ts) h = rw (texts-back ts) refl
property-back (base.text_set ts) h = cc

properties-back :
    (ps : Properties)
    → no_sets ps ≡ true
    → entries_of property_from (entries property_json ps) ≡ some ps
properties-back [] h = refl
properties-back ((k, p) ∷ ps) h =
    rw (property-back p (ground (arith, h)), properties-back ps (ground (arith, h))) refl

-- The architecture is known, the environments are those that the properties tell, and no property is
-- a set.
abbrev pub IsPlain : Node → Type 0
IsPlain x =
    (is_architecture x.architecture ≡ true)
    × (x.available_environments ≡ infer_environments x.properties)
    × (no_sets x.properties ≡ true)
    × (no_sets x.additional_properties ≡ true)

pub node-back : (x : Node) → IsPlain x → node_from (node_json x) ≡ some x
unfolding node_from node_json new_node
node-back x (h, e, p, q) =
    rw (properties-back x.properties p, properties-back x.additional_properties q, h, e) refl

module _ (c : Encoding) where
  -- The node and the environment read back, and the error is not an empty text.
  abbrev pub IsStored : Deployment → Type 0
  IsStored d = IsPlain d.node × IsRegular c d.environment_definition × (non_empty d.error ≡ d.error)

  -- A result is not empty, nor is its form.
  abbrev pub HasResult : DeploymentExecutionResult → Type 0
  HasResult r = IsPlain r.node × (elim r.result as (λ o. Type 0) [
    | none ↦ Unit {0}
    | some t ↦ ((t == "") ≡ false) × ((c.b64encode t == "") ≡ false)
  ])

  -- What the reader has: a text is the message of an Exception.
  abbrev pub received : ExecutionResult → ExecutionResult
  received nothing = nothing
  received (error_text e) = exception e
  received (exception e) = exception e
  received (results rs) = results rs

  -- There is a result, or none: an empty text or list would be read as none.
  abbrev pub IsTold : ExecutionResult → Type 0
  IsTold nothing = Unit {0}
  IsTold (error_text e) = (e == "") ≡ false
  IsTold (exception e) = (e == "") ≡ false
  IsTold (results []) = ⊥
  IsTold (results (r ∷ rs)) = All HasResult (r ∷ rs)

  -- The experiment is none, or reads back.
  abbrev pub IsReadable : Option Experiment → Type 0
  IsReadable none = Unit {0}
  IsReadable (some e) = All IsStored e.deployment_map

module _ (c : Encoding) (codec : (t : String) → c.b64decode (c.b64encode t) ≡ some t) where
  deployment-back :
      (d : Deployment) → IsStored c d → deployment_from c (deployment_json c d) ≡ some d
  unfolding deployment_from deployment_json
  deployment-back d (n, e, k) =
      rw
        (
          node-back d.node n,
          optional-back d.error,
          environment-back c d.environment_definition e,
          codec d.execution_graph,
          k,
        )
        refl

  context-back :
      (o : Option Contexts) → optional_of contexts_from (optional contexts_json o) ≡ some o
  context-back none = refl
  context-back (some contexts) = rw (entries-back dict (dict_of text_of) dict-back contexts) refl

  -- An experiment reads back as it was, with its deployments and its context, if its nodes have known
  -- architectures, the environments of their properties and no property that is a set, its
  -- environment definitions are of known classes and have numbers as ports, and no error is an empty text.
  pub experiment-back :
      (e : Experiment)
      → All (IsStored c) e.deployment_map
      → experiment_from c (experiment_json c e) ≡ some e
  unfolding experiment_from experiment_json
  experiment-back e h =
      rw
        (
          elements-back (deployment_json c) (deployment_from c) (IsStored c) deployment-back
              e.deployment_map h,
          context-back e.deployment_context,
        )
        refl
