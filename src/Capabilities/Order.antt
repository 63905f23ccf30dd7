-- ===== src/Capabilities/Order.antt =====
-- The written form of a map is a normal form: it does not depend on the order in which the map is
-- visited, and it tells maps apart.
use azure_pipelines_k8s_agen.Prelude.{true, List, [], ◌∷◌, ◌≡◌, ◌↔◌, sym, ap, ◌∙◌, refl, arith}
use azure_pipelines_k8s_agen.Text.{Text, codes, join}
use azure_pipelines_k8s_agen.Text.Sort.{sort}
use azure_pipelines_k8s_agen.GoMap.{GoMap, keys, IsMap, lookup}
use azure_pipelines_k8s_agen.GoMap.Same.{Same, sort-keys-Same}
use azure_pipelines_k8s_agen.Capabilities.{
  pair_texts, get_sorted_stringification_of_capabilities_map, get_capabilities_map_from_string,
}
use azure_pipelines_k8s_agen.Capabilities.RoundTrip.{encodable, from_string-stringification}

pair_texts-Same :
    (m m' : GoMap Text) (ks : List Text) → Same m m' → pair_texts m ks ≡ pair_texts m' ks
pair_texts-Same m m' [] s = refl
pair_texts-Same m m' (k ∷ ks) s = ground (arith, s k, pair_texts-Same m m' ks s)

pub stringification-Same :
    (m m' : GoMap Text)
    → IsMap m
    → IsMap m'
    → Same m m'
    → get_sorted_stringification_of_capabilities_map m
      ≡ get_sorted_stringification_of_capabilities_map m'
unfolding get_sorted_stringification_of_capabilities_map
stringification-Same m m' d d' s =
    ap (join (codes ";"))
      (pair_texts-Same m m' (sort (keys m)) s ∙ ap (pair_texts m') (sort-keys-Same m m' d d' s))

-- Of maps with one entry to a key whose keys hold no `=` or `;` and whose values hold no `;`, two are written the same
-- exactly when every key has the same value in both, in whatever order they are visited.
pub stringification_iff :
    (m m' : GoMap Text)
    → IsMap m
    → IsMap m'
    → encodable m ≡ true
    → encodable m' ≡ true
    → (get_sorted_stringification_of_capabilities_map m
        ≡ get_sorted_stringification_of_capabilities_map m')
      ↔ ((k : Text) → lookup m k ≡ lookup m' k)
stringification_iff m m' d d' e e' = (
  λ p k.
      sym (from_string-stringification m e k)
      ∙ ap (λ s. lookup (get_capabilities_map_from_string s) k) p
      ∙ from_string-stringification m' e' k,
  stringification-Same m m' d d',
)
