-- ===== src/ExtraContainers.antt =====
-- `ParseExtraAgentContainerDefinition` of internal/service/utils.go. `parse_quantity` stands for
-- `resource.ParseQuantity`.
pub mod Parsed
pub mod RoundTrip
pub mod Safety
use azure_pipelines_k8s_agen.Prelude.{Bool, ◌||◌, List, [], ◌∷◌, ◌++◌, some, if◌then◌else◌}
use azure_pipelines_k8s_agen.Text.{Text, codes, text_eq, split}
use azure_pipelines_k8s_agen.GoMap.{insert}
use azure_pipelines_k8s_agen.Go.{Result, ok, err, message, and_then}
use azure_pipelines_k8s_agen.Kube.{Container, Quantity}

abbrev pub azure_working_dir_mount_path : Text
azure_working_dir_mount_path = codes "/azp/_work"

abbrev pub azure_working_dir_mount_name : Text
azure_working_dir_mount_name = codes "workspace"

-- The four variables of the loop over the attributes.
pub record Attributes : Type 0 where
  pub name : Text
  pub image : Text
  pub cpu : Text
  pub memory : Text

abbrev pub no_attributes : Attributes
no_attributes = record { name = []; image = []; cpu = []; memory = [] }

set_attribute : Attributes → Text → Text → Attributes
set_attribute a key value =
    if text_eq key (codes "name")
    then record a { name = value }
    else if text_eq key (codes "image")
    then record a { image = value }
    else if text_eq key (codes "cpu")
    then record a { cpu = value }
    else if text_eq key (codes "memory")
    then record a { memory = value }
    else a

read_key_values : Attributes → Text → List Text → Result Attributes
unfolding set_attribute
read_key_values a attribute (key ∷ value ∷ []) = ok (set_attribute a key value)
read_key_values a attribute _ =
    err (message (codes "malformed extra agent containers attribute: " ++ attribute))

unfoldable pub read_attributes : Attributes → List Text → Result Attributes
unfolding read_key_values
read_attributes a [] = ok a
read_attributes a (attribute ∷ rest) =
    and_then (read_key_values a attribute (split (codes "=") attribute)) λ b. read_attributes b rest

abbrev pub is_empty : Text → Bool
is_empty t = text_eq t []

-- Sets one resource in the requests and the limits, if the text is given.
add_resource : (Text → Result Quantity) → Text → Text → Container → Result Container
add_resource parse_quantity resource_name text container =
    if is_empty text
    then ok container
    else and_then (parse_quantity text) λ quantity. ok (record container {
      requests = insert container.requests resource_name quantity;
      limits = insert container.limits resource_name quantity;
    })

abbrev pub bare_container : Text → Text → Container
bare_container name image = record {
  name = name;
  image = image;
  command = codes "/bin/sh" ∷ [];
  args = codes "-c" ∷ codes "trap : TERM INT; sleep 9999999999d & wait" ∷ [];
  env = [];
  volume_mounts =
      record { name = azure_working_dir_mount_name; mount_path = azure_working_dir_mount_path }
      ∷ [];
  requests = [];
  limits = [];
  pre_stop = some (
      codes "/bin/sh"
      ∷ codes "-c"
      ∷ codes "while [ $(pgrep -l Agent.Worker | wc -l) -ne 0 ]; do sleep 1; done"
      ∷ []);
  image_pull_policy = codes "Always";
}

unfoldable pub container_of : (Text → Result Quantity) → Text → Attributes → Result Container
unfolding add_resource
container_of parse_quantity definition a =
    if is_empty a.name || is_empty a.image
    then err (message (codes "malformed extra agent containers definition: " ++ definition))
    else and_then (add_resource parse_quantity (codes "cpu") a.cpu (bare_container a.name a.image))
        λ c. add_resource parse_quantity (codes "memory") a.memory c

unfoldable pub parse_definition : (Text → Result Quantity) → Text → Result Container
unfolding read_attributes container_of
parse_definition parse_quantity definition =
    and_then (read_attributes no_attributes (split (codes ",") definition))
      λ a. container_of parse_quantity definition a

unfoldable pub parse_definitions : (Text → Result Quantity) → List Text → Result (List Container)
unfolding parse_definition
parse_definitions parse_quantity [] = ok []
parse_definitions parse_quantity (definition ∷ rest) =
    and_then (parse_definition parse_quantity definition)
      λ c. and_then (parse_definitions parse_quantity rest) λ cs. ok (c ∷ cs)

unfoldable pub parse_extra_agent_container_definition :
    (Text → Result Quantity) → Text → Result (List Container)
unfolding parse_definitions
parse_extra_agent_container_definition parse_quantity extra_agent_containers =
    if is_empty extra_agent_containers
    then ok []
    else parse_definitions parse_quantity (split (codes "||") extra_agent_containers)
