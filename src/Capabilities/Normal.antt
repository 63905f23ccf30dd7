-- ===== src/Capabilities/Normal.antt =====
-- A map that is read from a string can be written again.
use azure_pipelines_k8s_agen.Prelude.{
  true, List, [], ◌∷◌, Option, none, some, ◌≡◌, arith, all, refl,
}
use azure_pipelines_k8s_agen.Text.{Text, codes, cut, split}
use azure_pipelines_k8s_agen.Text.SplitJoin.{lacks, split-lacks, PartsLack, cut-PartsLack}
use azure_pipelines_k8s_agen.GoMap.{GoMap, IsMap, insert, insert-IsMap}
use azure_pipelines_k8s_agen.Capabilities.{add_pair, add_pairs, get_capabilities_map_from_string}
use azure_pipelines_k8s_agen.Capabilities.RoundTrip.{encodable}

encodable-insert :
    (m : GoMap Text) (k v : Text)
    → encodable m ≡ true
    → (lacks b'=' k ≡ true) × (lacks b';' k ≡ true) × (lacks b';' v ≡ true)
    → encodable (insert m k v) ≡ true
unfolding insert
encodable-insert [] k v h p = ground arith
encodable-insert ((j, w) ∷ m) k v h p = ground (arith, encodable-insert m k v)

add_pair-encodable :
    (m : GoMap Text) (o : Option (Text × Text))
    → encodable m ≡ true
    → PartsLack b'=' b';' o
    → encodable (add_pair m o) ≡ true
unfolding add_pair
add_pair-encodable m none h p = h
add_pair-encodable m (some (k, v)) h p = encodable-insert m k v h p

add_pairs-encodable :
    (m : GoMap Text) (pieces : List Text)
    → encodable m ≡ true
    → all (lacks b';') pieces ≡ true
    → encodable (add_pairs m pieces) ≡ true
unfolding add_pairs
add_pairs-encodable m [] h a = h
add_pairs-encodable m (piece ∷ pieces) h a =
    add_pairs-encodable (add_pair m (cut (codes "=") piece)) pieces
      (add_pair-encodable m (cut (codes "=") piece) h
        (cut-PartsLack b'=' b';' piece (ground arith)))
      (ground arith)

add_pair-IsMap : (m : GoMap Text) (o : Option (Text × Text)) → IsMap m → IsMap (add_pair m o)
unfolding add_pair
add_pair-IsMap m none d = d
add_pair-IsMap m (some (k, v)) d = insert-IsMap m k v d

add_pairs-IsMap : (m : GoMap Text) (pieces : List Text) → IsMap m → IsMap (add_pairs m pieces)
unfolding add_pairs
add_pairs-IsMap m [] d = d
add_pairs-IsMap m (piece ∷ pieces) d =
    add_pairs-IsMap (add_pair m (cut (codes "=") piece)) pieces
      (add_pair-IsMap m (cut (codes "=") piece) d)

pub from_string-IsMap : (s : Text) → IsMap (get_capabilities_map_from_string s)
unfolding get_capabilities_map_from_string
from_string-IsMap s = add_pairs-IsMap [] (split (codes ";") s) tt

-- Whatever the string, the keys that are read hold no `=` or `;`, and the values no `;`.
pub from_string-encodable : (s : Text) → encodable (get_capabilities_map_from_string s) ≡ true
unfolding get_capabilities_map_from_string split
from_string-encodable s = add_pairs-encodable [] (split (codes ";") s) refl (split-lacks b';' s)
