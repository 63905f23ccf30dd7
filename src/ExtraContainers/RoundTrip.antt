-- ===== src/ExtraContainers/RoundTrip.antt =====
-- Definitions of extra containers that are written out are read back.
use azure_pipelines_k8s_agen.Prelude.{
  ℕ, Bool, true, false, ◌&&◌, List, [], ◌∷◌, ◌++◌, ◌≡◌, refl, ◌∙◌, ap, ap₂, arith, all, map, ◌==◌,
}
use azure_pipelines_k8s_agen.Text.{Text, codes, text_eq, join}
use azure_pipelines_k8s_agen.Text.SplitJoin.{lacks, split-join, lacks-append}
use azure_pipelines_k8s_agen.Text.SplitPair.{split_pair-join}
use azure_pipelines_k8s_agen.Go.{Result, ok, and_then}
use azure_pipelines_k8s_agen.Kube.{Container, Quantity}
use azure_pipelines_k8s_agen.ExtraContainers.{
  Attributes, no_attributes, set_attribute, read_key_values, read_attributes, is_empty,
  container_of, parse_definition, parse_definitions, parse_extra_agent_container_definition,
}

abbrev attribute : Text → Text → Text
attribute key value = key ++ b'=' ∷ value

abbrev optional : Text → Text → List Text
optional key [] = []
optional key (c ∷ value) = attribute key (c ∷ value) ∷ []

abbrev pieces : Attributes → List Text
pieces a =
    attribute (codes "image") a.image ∷ optional (codes "cpu") a.cpu
    ++ optional (codes "memory") a.memory

-- A definition in the form that the documentation gives, without the resources that are empty.
abbrev pub written : Attributes → Text
written a = join (b',' ∷ []) (attribute (codes "name") a.name ∷ pieces a)

abbrev pub written_all : List Attributes → Text
written_all l = join (b'|' ∷ b'|' ∷ []) (map written l)

abbrev is_plain : Text → Bool
is_plain t = lacks b',' t && (lacks b'=' t && lacks b'|' t)

-- No attribute holds a separator.
abbrev pub all_plain : Attributes → Bool
all_plain a = is_plain a.name && (is_plain a.image && (is_plain a.cpu && is_plain a.memory))

read_attribute :
    (a : Attributes) (key value : Text) (rest : List Text)
    → lacks b'=' key ≡ true
    → lacks b'=' value ≡ true
    → read_attributes a (attribute key value ∷ rest)
      ≡ read_attributes (set_attribute a key value) rest
unfolding read_attributes read_key_values join
read_attribute a key value rest h h' =
    ap (λ ks. and_then (read_key_values a (attribute key value) ks) λ b. read_attributes b rest)
      (split-join b'=' key (value ∷ []) (ground arith))

abbrev with_three : Text → Text → Text → Attributes
with_three name image cpu = record { name = name; image = image; cpu = cpu; memory = [] }

read_cpu :
    (name image cpu : Text) (rest : List Text)
    → lacks b'=' cpu ≡ true
    → read_attributes (with_three name image []) (optional (codes "cpu") cpu ++ rest)
      ≡ read_attributes (with_three name image cpu) rest
unfolding set_attribute text_eq
read_cpu name image [] rest h = refl
read_cpu name image (c ∷ cpu) rest h =
    read_attribute (with_three name image []) (codes "cpu") (c ∷ cpu) rest refl h

read_memory :
    (name image cpu memory : Text)
    → lacks b'=' memory ≡ true
    → read_attributes (with_three name image cpu) (optional (codes "memory") memory)
      ≡ ok (record { name = name; image = image; cpu = cpu; memory = memory })
unfolding set_attribute text_eq read_attributes
read_memory name image cpu [] h = refl
read_memory name image cpu (c ∷ memory) h =
    read_attribute (with_three name image cpu) (codes "memory") (c ∷ memory) [] refl h

read_pieces :
    (a : Attributes)
    → all_plain a ≡ true
    → read_attributes no_attributes (attribute (codes "name") a.name ∷ pieces a) ≡ ok a
unfolding set_attribute text_eq
read_pieces a h =
    read_attribute no_attributes (codes "name") a.name (pieces a) refl (ground arith)
    ∙ read_attribute (record { name = a.name; image = []; cpu = []; memory = [] }) (codes "image")
        a.image (optional (codes "cpu") a.cpu ++ optional (codes "memory") a.memory) refl
        (ground arith)
    ∙ read_cpu a.name a.image a.cpu (optional (codes "memory") a.memory) (ground arith)
    ∙ read_memory a.name a.image a.cpu a.memory (ground arith)

attribute-lacks :
    (b : ℕ) (key value : Text)
    → lacks b key ≡ true
    → lacks b value ≡ true
    → (b == b'=') ≡ false
    → lacks b (attribute key value) ≡ true
attribute-lacks b key value h h' e = lacks-append b key (b'=' ∷ value) h (ground arith)

optional-lacks :
    (b : ℕ) (key value : Text) (rest : List Text)
    → lacks b key ≡ true
    → lacks b value ≡ true
    → (b == b'=') ≡ false
    → all (lacks b) rest ≡ true
    → all (lacks b) (optional key value ++ rest) ≡ true
optional-lacks b key [] rest h h' e r = r
optional-lacks b key (c ∷ value) rest h h' e r =
    ground (arith, attribute-lacks b key (c ∷ value) h h' e, r)

last-lacks :
    (b : ℕ) (key value : Text)
    → lacks b key ≡ true
    → lacks b value ≡ true
    → (b == b'=') ≡ false
    → all (lacks b) (optional key value) ≡ true
last-lacks b key [] h h' e = refl
last-lacks b key (c ∷ value) h h' e = ground (arith, attribute-lacks b key (c ∷ value) h h' e)

both : (x y : Bool) → x ≡ true → y ≡ true → (x && y) ≡ true
both x y h h' = ground arith

-- A separator that the keys and the values lack is in no piece.
every_piece_lacks :
    (b : ℕ) (a : Attributes)
    → lacks b (codes "name") ≡ true
    → lacks b (codes "image") ≡ true
    → lacks b (codes "cpu") ≡ true
    → lacks b (codes "memory") ≡ true
    → (b == b'=') ≡ false
    → lacks b a.name && (lacks b a.image && (lacks b a.cpu && lacks b a.memory)) ≡ true
    → all (lacks b) (attribute (codes "name") a.name ∷ pieces a) ≡ true
every_piece_lacks b a n i c m e h =
    both _ _ (attribute-lacks b (codes "name") a.name n (ground arith) e) (
      both _ _ (attribute-lacks b (codes "image") a.image i (ground arith) e) (
        optional-lacks b (codes "cpu") a.cpu (optional (codes "memory") a.memory) c (ground arith) e
          (last-lacks b (codes "memory") a.memory m (ground arith) e)))

lacks-join :
    (b : ℕ) (sep : Text) (ps : List Text)
    → lacks b sep ≡ true
    → all (lacks b) ps ≡ true
    → lacks b (join sep ps) ≡ true
unfolding join
lacks-join b sep [] h h' = refl
lacks-join b sep (p ∷ []) h h' = ground arith
lacks-join b sep (p ∷ q ∷ ps) h h' =
    lacks-append b p (sep ++ join sep (q ∷ ps)) (ground arith)
      (lacks-append b sep (join sep (q ∷ ps)) h (lacks-join b sep (q ∷ ps) h (ground arith)))

parse_definition-written :
    (parse_quantity : Text → Result Quantity) (a : Attributes)
    → all_plain a ≡ true
    → parse_definition parse_quantity (written a) ≡ container_of parse_quantity (written a) a
unfolding parse_definition
parse_definition-written parse_quantity a h =
    ap (λ l. and_then (read_attributes no_attributes l) (container_of parse_quantity (written a)))
      (split-join b',' (attribute (codes "name") a.name) (pieces a)
        (every_piece_lacks b',' a refl refl refl refl refl (ground arith)))
    ∙ ap (λ r. and_then r (container_of parse_quantity (written a))) (read_pieces a h)

written-lacks : (a : Attributes) → all_plain a ≡ true → lacks b'|' (written a) ≡ true
written-lacks a h =
    lacks-join b'|' (b',' ∷ []) (attribute (codes "name") a.name ∷ pieces a) refl
      (every_piece_lacks b'|' a refl refl refl refl refl (ground arith))

-- The containers of these attributes, in order, up to the first that is malformed.
abbrev pub containers_of_attributes :
    (Text → Result Quantity) → List Attributes → Result (List Container)
containers_of_attributes parse_quantity [] = ok []
containers_of_attributes parse_quantity (a ∷ l) =
    and_then (container_of parse_quantity (written a) a)
      λ c. and_then (containers_of_attributes parse_quantity l) λ cs. ok (c ∷ cs)

parse_definitions-written :
    (parse_quantity : Text → Result Quantity) (l : List Attributes)
    → all all_plain l ≡ true
    → parse_definitions parse_quantity (map written l) ≡ containers_of_attributes parse_quantity l
unfolding parse_definitions
parse_definitions-written parse_quantity [] h = refl
parse_definitions-written parse_quantity (a ∷ l) h =
    ap₂ (λ r rs. and_then r λ c. and_then rs λ cs. ok (c ∷ cs))
      (parse_definition-written parse_quantity a (ground arith))
      (parse_definitions-written parse_quantity l (ground arith))

every_definition_lacks :
    (l : List Attributes) → all all_plain l ≡ true → all (lacks b'|') (map written l) ≡ true
every_definition_lacks [] h = refl
every_definition_lacks (a ∷ l) h =
    both _ _ (written-lacks a (ground arith)) (every_definition_lacks l (ground arith))

-- Definitions of attributes that are written out, at least one, and none with a `,`, `=` or `|` in an attribute, are
-- read back: `ParseExtraAgentContainerDefinition` gives the container of each, in order, or the
-- error of the first that is malformed.
pub parse-written :
    (parse_quantity : Text → Result Quantity) (a : Attributes) (l : List Attributes)
    → all all_plain (a ∷ l) ≡ true
    → parse_extra_agent_container_definition parse_quantity (written_all (a ∷ l))
      ≡ containers_of_attributes parse_quantity (a ∷ l)
unfolding parse_extra_agent_container_definition join text_eq
parse-written parse_quantity a l h = rw (not_empty l) (
    ap (parse_definitions parse_quantity)
      (split_pair-join b'|' (written a) (map written l) (every_definition_lacks (a ∷ l) h))
    ∙ parse_definitions-written parse_quantity (a ∷ l) h)
  where
    not_empty : (l : List Attributes) → is_empty (written_all (a ∷ l)) ≡ false
    not_empty [] = refl
    not_empty (b ∷ l) = refl
