-- ===== src/Json/Shapes.antt =====
-- The representations of netunicorn-base/src/netunicorn/base/types.py: what the JSON forms look like.
use netunicorn.Common.{String, Bool, true, false, ◌&&◌, ◌||◌, none, some}
use netunicorn.Base.{EnvironmentKind, docker_image, shell_execution, other_environment}
use netunicorn.Json.{
  Json, null, boolean, number, decimal, text, array, object, Elements, no_elements, element,
  Members, no_members, member, get,
}

-- The types that stand in the representations; a TypedDict has the given keys, and perhaps others.
mutual
  pub data Shape : Type 0 where
    a_text a_number a_boolean a_null : Shape
    union : Shape → Shape → Shape
    a_list : Shape → Shape
    a_dict : Shape → Shape
    typed_dict : Fields → Shape

  pub data Fields : Type 0 where
    no_fields : Fields
    field : String → Shape → Fields → Fields

abbrev pub all_elements : (Json → Bool) → Elements → Bool
all_elements p no_elements = true
all_elements p (element j js) = p j && all_elements p js

abbrev pub all_members : (Json → Bool) → Members → Bool
all_members p no_members = true
all_members p (member k j ms) = p j && all_members p ms

abbrev pub is_text : Json → Bool
is_text (text t) = true
is_text j = false

abbrev pub is_a_number : Json → Bool
is_a_number (number n) = true
is_a_number (decimal t) = true
is_a_number j = false

abbrev pub is_boolean : Json → Bool
is_boolean (boolean b) = true
is_boolean j = false

abbrev pub is_null : Json → Bool
is_null null = true
is_null j = false

abbrev pub is_array : (Json → Bool) → Json → Bool
is_array p (array js) = all_elements p js
is_array p j = false

abbrev pub is_object : (Members → Bool) → Json → Bool
is_object p (object ms) = p ms
is_object p j = false

abbrev pub has_key : String → (Json → Bool) → Members → Bool
has_key key p ms = elim (get key ms) [ none ↦ false | some j ↦ p j ]

unfoldable mutual
  pub conforms : Shape → Json → Bool
  conforms a_text j = is_text j
  conforms a_number j = is_a_number j
  conforms a_boolean j = is_boolean j
  conforms a_null j = is_null j
  conforms (union s t) j = conforms s j || conforms t j
  conforms (a_list s) j = is_array (conforms s) j
  conforms (a_dict s) j = is_object (all_members (conforms s)) j
  conforms (typed_dict fs) j = is_object (has_fields fs) j

  pub has_fields : Fields → Members → Bool
  has_fields no_fields ms = true
  has_fields (field key s fs) ms = has_key key (conforms s) ms && has_fields fs ms

abbrev pub optional_shape : Shape → Shape
optional_shape s = union a_null s

-- `Union[str, float, int, Set[str], None]`
abbrev pub node_property : Shape
node_property = union a_null (union a_text (union a_number (a_list a_text)))

abbrev pub node_representation : Shape
node_representation = typed_dict (
    field "name" a_text (
      field "properties" (a_dict node_property) (
        field "additional_properties" (a_dict node_property)
          (field "architecture" a_text no_fields))))

abbrev pub build_context_representation : Shape
build_context_representation =
    typed_dict (
      field "python_version" a_text (field "cloudpickle_version" (optional_shape a_text) no_fields))

abbrev pub runtime_context_representation : Shape
runtime_context_representation = typed_dict (
    field "ports_mapping" (a_dict a_number) (
      field "environment_variables" (a_dict a_text) (
        field "network" (optional_shape a_text)
          (field "additional_arguments" (a_list a_text) no_fields))))

abbrev pub environment_fields : Fields
environment_fields =
    field "commands" (a_list a_text)
      (field "runtime_context" runtime_context_representation no_fields)

abbrev pub environment_definition_representation : Shape
environment_definition_representation = typed_dict environment_fields

abbrev pub docker_image_representation : Shape
docker_image_representation = typed_dict (
    field "image" (optional_shape a_text)
      (field "build_context" build_context_representation environment_fields))

-- The representation of the class, of those that there are.
abbrev pub environment_shape : EnvironmentKind → Shape
environment_shape docker_image = docker_image_representation
environment_shape shell_execution = environment_definition_representation
environment_shape (other_environment k) = environment_definition_representation

abbrev pub deployment_representation : Shape
deployment_representation = typed_dict (
    field "node" node_representation (
      field "prepared" a_boolean (
        field "executor_id" a_text (
          field "error" (optional_shape a_text) (
            field "execution_graph" a_text (
              field "keep_alive_timeout_minutes" a_number (
                field "cleanup" a_boolean (
                  field "environment_definition" environment_definition_representation
                    (field "environment_definition_type" a_text no_fields)))))))))

abbrev pub experiment_representation : Shape
experiment_representation = typed_dict (
    field "deployment_map" (a_list deployment_representation)
      (field "deployment_context" (optional_shape (a_dict (a_dict a_text))) no_fields))

abbrev pub deployment_execution_result_representation : Shape
deployment_execution_result_representation = typed_dict (
    field "node" node_representation (
      field "execution_graph" a_text
        (field "result" (optional_shape a_text) (field "error" (optional_shape a_text) no_fields))))

abbrev pub experiment_execution_information_representation : Shape
experiment_execution_information_representation = typed_dict (
    field "status" a_number (
      field "experiment" (optional_shape experiment_representation) (
        field "execution_result"
          (union a_null (union a_text (a_list deployment_execution_result_representation)))
          no_fields)))
