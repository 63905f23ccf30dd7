-- ===== src/Containers/Images.antt =====
-- Images of containers, by name and by status.
use azure_pipelines_k8s_agen.Prelude.{
  ℕ, suc, ◌+◌, Bool, true, false, ◌&&◌, ◌||◌, not, List, [], ◌∷◌, ◌++◌, some, ◌≡◌, refl, subst, ap₂,
  ◌∙◌, ap, arith, Bool-cases, inl, inr, map, ◌==◌, if◌then◌else◌,
}
use azure_pipelines_k8s_agen.Text.{Text, text_eq, text_eq_iff, text_eq_refl}
use azure_pipelines_k8s_agen.Kube.{Pod, Container, ContainerStatus}
use azure_pipelines_k8s_agen.Containers.{
  spec_index_from, set_image, non_existent_container_image_suffix,
}
use azure_pipelines_k8s_agen.Containers.Indices.{NoName, DistinctNames}

-- No two of the statuses have one name.
abbrev pub NoStatus : Text → List ContainerStatus → Type 0
NoStatus name [] = Unit
NoStatus name (s ∷ ss) = (text_eq name s.name ≡ false) × NoStatus name ss

abbrev pub DistinctStatuses : List ContainerStatus → Type 0
DistinctStatuses [] = Unit
DistinctStatuses (s ∷ ss) = NoStatus s.name ss × DistinctStatuses ss

abbrev pub has_name : Text → List Container → Bool
has_name name [] = false
has_name name (c ∷ cs) = text_eq c.name name || has_name name cs

-- Every status is that of a container of the spec.
abbrev pub AllInSpec : List Container → List ContainerStatus → Type 0
AllInSpec cs [] = Unit
AllInSpec cs (s ∷ ss) = (has_name s.name cs ≡ true) × AllInSpec cs ss

abbrev pub is_to_terminate : ℕ → ℕ → ContainerStatus → Bool
is_to_terminate agent i s = not (i == agent) && s.running

-- The image of the container with this name and image, by its status: that of a running container,
-- where it is not the agent's, with the suffix, and else its own.
abbrev pub image_after : ℕ → ℕ → List ContainerStatus → Text → Text → Text
image_after agent i [] name image = image
image_after agent i (s ∷ ss) name image =
    let later = image_after agent (suc i) ss name image in
    if text_eq s.name name
    then (if is_to_terminate agent i s
        then s.image ++ non_existent_container_image_suffix
        else image)
    else later

abbrev pub broken : ℕ → ℕ → List ContainerStatus → Container → Container
broken agent i ss c = record c { image = image_after agent i ss c.name c.image }

abbrev pub renamed : Text → Text → Container → Container
renamed name image c = record c { image = if text_eq name c.name then image else c.image }

abbrev pub with_containers : Pod → List Container → Pod
with_containers pod cs = record pod { spec = record (pod.spec) { containers = cs } }

renamed_none :
    (name image : Text) (cs : List Container) → NoName name cs → map (renamed name image) cs ≡ cs
renamed_none name image [] h = refl
renamed_none name image (c ∷ cs) (h, hs) = rw (h, renamed_none name image cs hs) refl

-- Where the container is found, counted from the number, and what setting its image does.
abbrev pub Located : ℕ → List Container → Text → Type 0
Located i cs name =
    (k : ℕ) × (spec_index_from i name cs ≡ some (i + k))
    × ((image : Text) → set_image cs k image ≡ map (renamed name image) cs)

found_first :
    (i : ℕ) (c : Container) (cs : List Container) → NoName c.name cs → Located i (c ∷ cs) c.name
unfolding spec_index_from set_image
found_first i c cs n = (
  0,
  rw (text_eq_refl c.name) (ap some (omega arith)),
  λ image. rw (text_eq_refl c.name, renamed_none c.name image cs n) refl,
)

text_eq_other : (a b : Text) → text_eq a b ≡ false → text_eq b a ≡ false
text_eq_other a b f = ground (arith, text_eq_iff a b, text_eq_iff b a)

-- With distinct names, a container that has the name is found, and only its image is set.
pub locate :
    (i : ℕ) (name : Text) (cs : List Container)
    → DistinctNames cs
    → has_name name cs ≡ true
    → Located i cs name
unfolding spec_index_from set_image
locate i name [] d h = absurd cc
locate i name (c ∷ cs) (n, d) h = elim (Bool-cases (text_eq c.name name)) [
  | inl t ↦ subst (Located i (c ∷ cs)) ((text_eq_iff c.name name).0 t) (found_first i c cs n)
  | inr f ↦
      let (k, found, set) = locate (suc i) name cs d (rw f at h) in
      (
        suc k,
        rw f (found ∙ ap some (omega arith)),
        λ image. rw (text_eq_other c.name name f, set image) refl,
      )
]

-- Setting an image leaves the names as they are.
NoName-renamed :
    (name image n : Text) (cs : List Container)
    → NoName n cs
    → NoName n (map (renamed name image) cs)
NoName-renamed name image n [] h = tt
NoName-renamed name image n (c ∷ cs) (h, hs) = (h, NoName-renamed name image n cs hs)

pub DistinctNames-renamed :
    (name image : Text) (cs : List Container)
    → DistinctNames cs
    → DistinctNames (map (renamed name image) cs)
DistinctNames-renamed name image [] d = tt
DistinctNames-renamed name image (c ∷ cs) (n, d) =
    (NoName-renamed name image c.name cs n, DistinctNames-renamed name image cs d)

has_name-renamed :
    (name image n : Text) (cs : List Container)
    → has_name n (map (renamed name image) cs) ≡ has_name n cs
has_name-renamed name image n [] = refl
has_name-renamed name image n (c ∷ cs) =
    ap (λ b. text_eq c.name n || b) (has_name-renamed name image n cs)

pub AllInSpec-renamed :
    (name image : Text) (cs : List Container) (ss : List ContainerStatus)
    → AllInSpec cs ss
    → AllInSpec (map (renamed name image) cs) ss
AllInSpec-renamed name image cs [] h = tt
AllInSpec-renamed name image cs (s ∷ ss) (h, hs) =
    (has_name-renamed name image s.name cs ∙ h, AllInSpec-renamed name image cs ss hs)

image_after_none :
    (agent i : ℕ) (ss : List ContainerStatus) (name image : Text)
    → NoStatus name ss
    → image_after agent i ss name image ≡ image
image_after_none agent i [] name image h = refl
image_after_none agent i (s ∷ ss) name image (h, hs) =
    rw (text_eq_other name s.name h) (image_after_none agent (suc i) ss name image hs)

module _ (agent : ℕ) where
  -- The status that is looked at first decides, and no later one has its name.
  image_after-set :
      (i : ℕ) (s : ContainerStatus) (ss : List ContainerStatus) (name image : Text)
      → NoStatus s.name ss
      → is_to_terminate agent i s ≡ true
      → image_after agent
          (suc i)
          ss
          name
          (if text_eq s.name name then s.image ++ non_existent_container_image_suffix else image)
        ≡ image_after agent i (s ∷ ss) name image
  image_after-set i s ss name image n t = elim (Bool-cases (text_eq s.name name)) [
    | inl e ↦
        rw (e, t)
          (image_after_none agent (suc i) ss name _
            (subst (λ m. NoStatus m ss) ((text_eq_iff s.name name).0 e) n))
    | inr f ↦ rw f refl
  ]

  image_after-kept :
      (i : ℕ) (s : ContainerStatus) (ss : List ContainerStatus) (name image : Text)
      → NoStatus s.name ss
      → is_to_terminate agent i s ≡ false
      → image_after agent (suc i) ss name image ≡ image_after agent i (s ∷ ss) name image
  image_after-kept i s ss name image n t = elim (Bool-cases (text_eq s.name name)) [
    | inl e ↦
        rw (e, t)
          (image_after_none agent (suc i) ss name image
            (subst (λ m. NoStatus m ss) ((text_eq_iff s.name name).0 e) n))
    | inr f ↦ rw f refl
  ]

  pub broken-set :
      (i : ℕ) (s : ContainerStatus) (ss : List ContainerStatus) (cs : List Container)
      → NoStatus s.name ss
      → is_to_terminate agent i s ≡ true
      → map
          (broken agent (suc i) ss)
          (map (renamed s.name (s.image ++ non_existent_container_image_suffix)) cs)
        ≡ map (broken agent i (s ∷ ss)) cs
  broken-set i s ss [] n t = refl
  broken-set i s ss (c ∷ cs) n t =
      ap₂ (λ x l. record c { image = x } ∷ l) (image_after-set i s ss c.name c.image n t)
        (broken-set i s ss cs n t)

  pub broken-kept :
      (i : ℕ) (s : ContainerStatus) (ss : List ContainerStatus) (cs : List Container)
      → NoStatus s.name ss
      → is_to_terminate agent i s ≡ false
      → map (broken agent (suc i) ss) cs ≡ map (broken agent i (s ∷ ss)) cs
  broken-kept i s ss [] n t = refl
  broken-kept i s ss (c ∷ cs) n t =
      ap₂ (λ x l. record c { image = x } ∷ l) (image_after-kept i s ss c.name c.image n t)
        (broken-kept i s ss cs n t)

  pub broken-nil : (i : ℕ) (cs : List Container) → map (broken agent i []) cs ≡ cs
  broken-nil i [] = refl
  broken-nil i (c ∷ cs) = ap (λ l. c ∷ l) (broken-nil i cs)
