-- ===== src/Containers/Indices.antt =====
-- The two indices of a container, in the spec and in the status of its pod.
use azure_pipelines_k8s_agen.Prelude.{
  ℕ, zero, suc, ◌+◌, true, false, List, [], ◌∷◌, ◌++◌, Option, none, some, ◌≡◌, refl, sym, ◌∙◌, ap,
  arith, get_elem?, Bool-cases, inl, inr,
}
use azure_pipelines_k8s_agen.Text.{Text, codes, text_eq, text_eq_refl, text_eq_iff}
use azure_pipelines_k8s_agen.Go.{ok, err, panic}
use azure_pipelines_k8s_agen.Kube.{Pod, Container, ContainerStatus}
use azure_pipelines_k8s_agen.Containers.{
  statuses, status_index_from, spec_index_from, found_or, get_container_status_index,
  get_container_spec_index,
}

-- No two containers of the list have one name.
abbrev pub NoName : Text → List Container → Type 0
NoName name [] = Unit
NoName name (c ∷ cs) = (text_eq name c.name ≡ false) × NoName name cs

abbrev pub DistinctNames : List Container → Type 0
DistinctNames [] = Unit
DistinctNames (c ∷ cs) = NoName c.name cs × DistinctNames cs

some_injective : {A : Type 0} (a b : A) → some a ≡ some b → a ≡ b
some_injective a b e = ap (λ o. elim o [ none ↦ a | some x ↦ x ]) e

-- The status at the index that was found has the name.
pub named_at :
    (i j : ℕ) (name : Text) (cs : List ContainerStatus)
    → status_index_from i name cs ≡ some j
    → (k : ℕ) × (j ≡ i + k) × (c : ContainerStatus) × (get_elem? cs k ≡ some c) × (c.name ≡ name)
unfolding status_index_from
named_at i j name [] e = cc
named_at i j name (c ∷ cs) e = elim (Bool-cases (text_eq c.name name)) [
  | inl t ↦ (
    0,
    some_injective j i (sym e ∙ first t) ∙ omega arith,
    c,
    refl,
    (text_eq_iff c.name name).0 t,
  )
  | inr f ↦
      let (k, at, d, there, named) = named_at (suc i) j name cs (sym (later f) ∙ e) in
      (suc k, omega (arith, at), d, there, named)
]
  where
    first : text_eq c.name name ≡ true → status_index_from i name (c ∷ cs) ≡ some i
    first t = rw t refl

    later :
        text_eq c.name name ≡ false
        → status_index_from i name (c ∷ cs) ≡ status_index_from (suc i) name cs
    later f = rw f refl

NoName-at :
    (cs : List Container) (name : Text) (k : ℕ) (c : Container)
    → NoName name cs
    → get_elem? cs k ≡ some c
    → text_eq name c.name ≡ false
NoName-at [] name k c h e = cc
NoName-at (d ∷ cs) name zero c (h, hs) e =
    ap (λ (x : Container). text_eq name x.name) (sym (some_injective d c e)) ∙ h
NoName-at (d ∷ cs) name (suc k) c (h, hs) e = NoName-at cs name k c hs e

-- With distinct names, the container at an index is found at that index.
found_at :
    (i k : ℕ) (c : Container) (cs : List Container)
    → DistinctNames cs
    → get_elem? cs k ≡ some c
    → spec_index_from i c.name cs ≡ some (i + k)
unfolding spec_index_from
found_at i k c [] d e = cc
found_at i zero c (b ∷ cs) d e =
    let same : text_eq b.name c.name ≡ true =
      ap (λ (x : Container). text_eq x.name c.name) (some_injective b c e) ∙ text_eq_refl c.name in
    rw same (ap some (omega arith))
found_at i (suc k) c (b ∷ cs) (n, d) e =
    let other : text_eq b.name c.name ≡ false = NoName-at cs b.name k c n e in
    rw other (found_at (suc i) k c cs d e ∙ ap some (omega arith))

found_or-ok : (why : Text) (o : Option ℕ) (i : ℕ) → found_or why o ≡ ok i → o ≡ some i
unfolding found_or
found_or-ok why none i e = cc
found_or-ok why (some j) i e =
    ap (λ r. elim r [ ok x ↦ some x | err _ ↦ some j | panic ↦ some j ]) e

-- The container of the spec at the index exists, and its name is the one that was searched for.
spec_of_status_index :
    (pod : Pod) (j i : ℕ)
    → get_container_status_index pod j ≡ ok i
    → (c : Container) × (get_elem? pod.spec.containers j ≡ some c)
      × (status_index_from 0 c.name (statuses pod) ≡ some i)
unfolding get_container_status_index
spec_of_status_index pod j i e = of (get_elem? pod.spec.containers j) e
  where
    of :
        (o : Option Container)
        → (elim o [
          | none ↦ panic
          | some c ↦
              found_or
                (codes
                    "GetContainerStatusIndex(): no container found in pod that has the expected name "
                  ++ c.name)
                (status_index_from 0 c.name (statuses pod))
        ])
          ≡ ok i
        → (c : Container) × (o ≡ some c) × (status_index_from 0 c.name (statuses pod) ≡ some i)
    of none e = cc
    of (some c) e = (c, refl, found_or-ok _ (status_index_from 0 c.name (statuses pod)) i e)

-- Where the containers of the spec have distinct names, the index in the status that is found for an
-- index in the spec leads back to that index.
spec_index-status_index :
    (pod : Pod) (j i : ℕ)
    → DistinctNames pod.spec.containers
    → get_container_status_index pod j ≡ ok i
    → get_container_spec_index pod i ≡ ok j
unfolding get_container_spec_index found_or
spec_index-status_index pod j i distinct e =
    let (c, at, found) = spec_of_status_index pod j i e in
    let (k, same, d, there, named) = named_at 0 i c.name (statuses pod) found in
    let here : get_elem? (statuses pod) i ≡ some d =
      ap (get_elem? (statuses pod)) (same ∙ omega arith) ∙ there in
    let back : spec_index_from 0 d.name pod.spec.containers ≡ some j =
      ap (λ name. spec_index_from 0 name pod.spec.containers) named
      ∙ found_at 0 j c pod.spec.containers distinct at
      ∙ ap some (omega arith) in
    rw (get_container_spec_index, here, back) refl
