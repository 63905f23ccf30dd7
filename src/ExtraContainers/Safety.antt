-- ===== src/ExtraContainers/Safety.antt =====
-- Parsing extra containers keeps to the terms, if parsing a quantity does.
use azure_pipelines_k8s_agen.Prelude.{◌||◌, List, [], ◌∷◌, Bool-cases, inl, inr}
use azure_pipelines_k8s_agen.Text.{Text}
use azure_pipelines_k8s_agen.Go.{Result, ok, err, panic, and_then}
use azure_pipelines_k8s_agen.Kube.{Container, Quantity}
use azure_pipelines_k8s_agen.World.Safe.{Terms, Holds, Anything}
use azure_pipelines_k8s_agen.ExtraContainers.{
  Attributes, no_attributes, read_key_values, read_attributes, is_empty, add_resource, container_of,
  parse_definition, parse_definitions, parse_extra_agent_container_definition,
}

module _ (t : Terms) where
  and_then-Holds :
      {A B : Type 0} (r : Result A) (f : A → Result B)
      → Holds t Anything r
      → ((a : A) → Holds t Anything (f a))
      → Holds t Anything (and_then r f)
  and_then-Holds (ok a) f h k = k a
  and_then-Holds (err e) f h k = h
  and_then-Holds panic f h k = h

  read_key_values-Holds :
      (a : Attributes) (attribute : Text) (pieces : List Text)
      → Holds t Anything (read_key_values a attribute pieces)
  unfolding read_key_values
  read_key_values-Holds a attribute [] = t.messages _
  read_key_values-Holds a attribute (x ∷ []) = t.messages _
  read_key_values-Holds a attribute (x ∷ y ∷ []) = tt
  read_key_values-Holds a attribute (x ∷ y ∷ z ∷ more) = t.messages _

  read_attributes-Holds :
      (a : Attributes) (attributes : List Text) → Holds t Anything (read_attributes a attributes)
  unfolding read_attributes
  read_attributes-Holds a [] = tt
  read_attributes-Holds a (attribute ∷ rest) =
      and_then-Holds _ _ (read_key_values-Holds a attribute _) λ b. read_attributes-Holds b rest

  module _ (parse_quantity : Text → Result Quantity)
      (total : (text : Text) → Holds t Anything (parse_quantity text)) where
    add_resource-Holds :
        (resource_name text : Text) (c : Container)
        → Holds t Anything (add_resource parse_quantity resource_name text c)
    unfolding add_resource
    add_resource-Holds resource_name text c = elim (Bool-cases (is_empty text)) [
      | inl e ↦ rw e tt
      | inr e ↦ rw e (and_then-Holds (parse_quantity text) _ (total text) λ quantity. tt)
    ]

    container_of-Holds :
        (definition : Text) (a : Attributes)
        → Holds t Anything (container_of parse_quantity definition a)
    unfolding container_of
    container_of-Holds definition a = elim (Bool-cases (is_empty a.name || is_empty a.image)) [
      | inl e ↦ rw e (t.messages _)
      | inr e ↦
          rw e
            (and_then-Holds _ _ (add_resource-Holds _ a.cpu _) λ c. add_resource-Holds _ a.memory c)
    ]

    parse_definitions-Holds :
        (definitions : List Text) → Holds t Anything (parse_definitions parse_quantity definitions)
    unfolding parse_definitions parse_definition
    parse_definitions-Holds [] = tt
    parse_definitions-Holds (definition ∷ rest) =
        and_then-Holds _ _
          (and_then-Holds _ _ (read_attributes-Holds no_attributes _)
            λ a. container_of-Holds definition a)
          λ c.
            and_then-Holds (parse_definitions parse_quantity rest) _ (parse_definitions-Holds rest)
              λ cs. tt

    pub parse_extra_agent_container_definition-Holds :
        (text : Text)
        → Holds t Anything (parse_extra_agent_container_definition parse_quantity text)
    unfolding parse_extra_agent_container_definition
    parse_extra_agent_container_definition-Holds text = elim (Bool-cases (is_empty text)) [
      | inl e ↦ rw e tt
      | inr e ↦ rw e (parse_definitions-Holds _)
    ]
