-- ===== src/ExtraContainers/Parsed.antt =====
-- What a definition of extra containers that is accepted gives.
use azure_pipelines_k8s_agen.Prelude.{
  suc, Bool, true, false, ◌||◌, List, [], ◌∷◌, ◌++◌, ◌≡◌, refl, sym, subst, ◌∙◌, ap, arith, length,
  if◌then◌else◌,
}
use azure_pipelines_k8s_agen.Text.{Text, codes, split}
use azure_pipelines_k8s_agen.GoMap.{insert}
use azure_pipelines_k8s_agen.Go.{Result, ok, err, panic, message, and_then}
use azure_pipelines_k8s_agen.Kube.{Container, Quantity}
use azure_pipelines_k8s_agen.ExtraContainers.{
  Attributes, no_attributes, is_empty, add_resource, bare_container, container_of, read_attributes,
  parse_definition, parse_definitions, parse_extra_agent_container_definition,
}

-- The container has a name and an image, and asks for the resources that it is limited to.
abbrev pub IsComplete : Container → Type 0
IsComplete c = (is_empty c.name ≡ false) × (is_empty c.image ≡ false) × (c.requests ≡ c.limits)

abbrev pub AllComplete : List Container → Type 0
AllComplete [] = Unit
AllComplete (c ∷ cs) = IsComplete c × AllComplete cs

and_then_inv :
    {A B : Type 0} (r : Result A) (f : A → Result B) (b : B)
    → and_then r f ≡ ok b
    → (a : A) × (r ≡ ok a) × (f a ≡ ok b)
and_then_inv (ok a) f b e = (a, refl, e)
and_then_inv (err x) f b e = cc
and_then_inv panic f b e = cc

ok_injective : {A : Type 0} (a b : A) → ok a ≡ ok b → a ≡ b
ok_injective a b e = ap (λ r. elim r [ ok x ↦ x | err _ ↦ a | panic ↦ a ]) e

module _ (parse_quantity : Text → Result Quantity) where
  add_resource-IsComplete :
      (resource_name text : Text) (c d : Container)
      → IsComplete c
      → add_resource parse_quantity resource_name text c ≡ ok d
      → IsComplete d
  unfolding add_resource
  add_resource-IsComplete resource_name text c d h e = of (is_empty text) e
    where
      of :
          (b : Bool)
          → (if b
              then ok c
              else and_then (parse_quantity text) λ quantity. ok (record c {
                requests = insert c.requests resource_name quantity;
                limits = insert c.limits resource_name quantity;
              }))
            ≡ ok d
          → IsComplete d
      of true e = subst IsComplete (ok_injective c d e) h
      of false e =
          let (q, _, e') = and_then_inv (parse_quantity text) _ d e in
          subst IsComplete
            (ok_injective
              (record c {
                requests = insert c.requests resource_name q;
                limits = insert c.limits resource_name q;
              })
              d e')
            (h.0, h.1, ap (λ r. insert r resource_name q) h.2)

  container_of-IsComplete :
      (definition : Text) (a : Attributes) (d : Container)
      → container_of parse_quantity definition a ≡ ok d
      → IsComplete d
  unfolding container_of
  container_of-IsComplete definition a d e = of (is_empty a.name || is_empty a.image) refl e
    where
      of :
          (b : Bool)
          → (is_empty a.name || is_empty a.image) ≡ b
          → (if b
              then err
                  (message (codes "malformed extra agent containers definition: " ++ definition))
              else and_then
                  (add_resource parse_quantity (codes "cpu") a.cpu (bare_container a.name a.image))
                  λ c. add_resource parse_quantity (codes "memory") a.memory c)
            ≡ ok d
          → IsComplete d
      of true h e = cc
      of false h e =
          let (c, first, second) =
            and_then_inv
              (add_resource parse_quantity (codes "cpu") a.cpu (bare_container a.name a.image)) _ d
              e in
          add_resource-IsComplete (codes "memory") a.memory c d
            (add_resource-IsComplete (codes "cpu") a.cpu (bare_container a.name a.image) c
              (ground (arith, h), ground (arith, h), refl) first)
            second

  parse_definitions_lem :
      (definitions : List Text) (cs : List Container)
      → parse_definitions parse_quantity definitions ≡ ok cs
      → (length cs ≡ length definitions) × AllComplete cs
  unfolding parse_definitions parse_definition
  parse_definitions_lem [] cs e =
      let same : [] ≡ cs = ok_injective [] cs e in (ap length (sym same), subst AllComplete same tt)
  parse_definitions_lem (definition ∷ rest) cs e =
      let (c, e1, r1) =
        and_then_inv (parse_definition parse_quantity definition)
          (λ c. and_then (parse_definitions parse_quantity rest) λ cs'. ok (c ∷ cs')) cs e in
      let (cs', e2, r2) =
        and_then_inv (parse_definitions parse_quantity rest) (λ cs'. ok (c ∷ cs')) cs r1 in
      let (a, _, e3) =
        and_then_inv (read_attributes no_attributes (split (codes ",") definition))
          (λ a. container_of parse_quantity definition a) c e1 in
      let (len, complete) = parse_definitions_lem rest cs' e2 in
      let same : c ∷ cs' ≡ cs = ok_injective (c ∷ cs') cs r2 in
      (
        ap length (sym same) ∙ ap suc len,
        subst AllComplete same (container_of-IsComplete definition a c e3, complete),
      )

  -- A text that is accepted gives no container if it is empty, and else one for each of the
  -- definitions that `||` separates; each has a name and an image, and limits equal to its requests.
  pub parse_extra_agent_container_definition_lem :
      (text : Text) (cs : List Container)
      → parse_extra_agent_container_definition parse_quantity text ≡ ok cs
      → (length cs ≡ (if is_empty text then 0 else length (split (codes "||") text)))
        × AllComplete cs
  unfolding parse_extra_agent_container_definition
  parse_extra_agent_container_definition_lem text cs e = of (is_empty text) e
    where
      of :
          (b : Bool)
          → (if b then ok [] else parse_definitions parse_quantity (split (codes "||") text))
            ≡ ok cs
          → (length cs ≡ (if b then 0 else length (split (codes "||") text))) × AllComplete cs
      of true e =
          let same : [] ≡ cs = ok_injective [] cs e in
          (ap length (sym same), subst AllComplete same tt)
      of false e = parse_definitions_lem (split (codes "||") text) cs e
