-- ===== src/GoMap/Same.antt =====
-- Two maps are the same when every key has the same value; `reflect.DeepEqual` decides it.
use azure_pipelines_k8s_agen.Prelude.{
  suc, Bool, true, false, ◌&&◌, [], ◌∷◌, Option, none, some, ◌≡◌, refl, sym, ◌∙◌, ap, ◌↔◌, arith,
  ◌==◌, length,
}
use azure_pipelines_k8s_agen.Text.{Text, text_eq, text_eq_iff, text_eq_refl}
use azure_pipelines_k8s_agen.Text.Sort.{
  contains, sort, contains-sort, Distinct-Increasing, Increasing-unique,
}
use azure_pipelines_k8s_agen.GoMap.Base.{
  GoMap, keys, IsMap, lookup, erase, lookup-erase, has_key-lookup, contains-has_key,
}

abbrev pub Same {ℓ} : {V : Type ℓ} → GoMap V → GoMap V → Type ℓ
Same m m' = (k : Text) → lookup m k ≡ lookup m' k

abbrev value_is : Option Text → Text → Bool
value_is none v = false
value_is (some w) v = text_eq w v

-- Every entry of the first map is in the second.
unfoldable pub all_in : GoMap Text → GoMap Text → Bool
all_in [] m' = true
all_in ((k, v) ∷ m) m' = value_is (lookup m' k) v && all_in m m'

-- `reflect.DeepEqual` on maps from strings to strings
unfoldable pub deep_equal : GoMap Text → GoMap Text → Bool
unfolding all_in
deep_equal m m' = length m == length m' && all_in m m'

module _ {ℓ} {V : Type ℓ} where
  erase-missing : (m : GoMap V) (k : Text) → contains (keys m) k ≡ false → erase m k ≡ m
  unfolding erase contains
  erase-missing [] k h = refl
  erase-missing ((j, w) ∷ m) k h =
      ground (arith, erase-missing m k, text_eq_iff j k, text_eq_iff k j)

  length-erase :
      (m : GoMap V) (k : Text)
      → IsMap m
      → contains (keys m) k ≡ true
      → suc (length (erase m k)) ≡ length m
  unfolding erase contains
  length-erase [] k d h = cc
  length-erase ((j, w) ∷ m) k d h =
      ground (arith, length-erase m k d.1, erase-missing m k, text_eq_iff j k, text_eq_iff k j)

  contains-erase :
      (m : GoMap V) (k j : Text)
      → contains (keys m) j ≡ false
      → contains (keys (erase m k)) j ≡ false
  unfolding erase contains
  contains-erase [] k j h = refl
  contains-erase ((i, w) ∷ m) k j h = ground (arith, contains-erase m k j)

  pub erase-IsMap : (m : GoMap V) (k : Text) → IsMap m → IsMap (erase m k)
  unfolding erase
  erase-IsMap [] k d = tt
  erase-IsMap ((j, w) ∷ m) k d = ground (arith, contains-erase m k j d.0, erase-IsMap m k d.1)

all_in-erase :
    (m m' : GoMap Text) (k : Text)
    → contains (keys m) k ≡ false
    → all_in m (erase m' k) ≡ all_in m m'
unfolding all_in contains
all_in-erase [] m' k h = refl
all_in-erase ((j, v) ∷ m) m' k h = ground (arith, all_in-erase m m' k, lookup-erase m' k j)

present : (m : GoMap Text) (k v : Text) → lookup m k ≡ some v → contains (keys m) k ≡ true
present m k v h = contains-has_key m k ∙ has_key-lookup m k ∙ rw h

absent : (m : GoMap Text) (k : Text) → contains (keys m) k ≡ false → lookup m k ≡ none
unfolding contains lookup
absent [] k h = refl
absent ((j, v) ∷ m) k h = ground (arith, absent m k, text_eq_iff j k, text_eq_iff k j)

value_is-some : (o : Option Text) (v : Text) → value_is o v ≡ true → o ≡ some v
value_is-some none v h = cc
value_is-some (some w) v h = ap some ((text_eq_iff w v).0 h)

-- One entry taken out of both maps.
deep_equal-cons :
    (k v : Text) (m m' : GoMap Text)
    → IsMap ((k, v) ∷ m)
    → IsMap m'
    → lookup m' k ≡ some v
    → deep_equal ((k, v) ∷ m) m' ≡ deep_equal m (erase m' k)
unfolding deep_equal
deep_equal-cons k v m m' d d' h =
    ground (arith, all_in-erase m m' k d.0, length-erase m' k d' (present m' k v h), text_eq_refl v)

deep_equal-head :
    (k v : Text) (m m' : GoMap Text) → deep_equal ((k, v) ∷ m) m' ≡ true → lookup m' k ≡ some v
unfolding deep_equal
deep_equal-head k v m m' h = value_is-some (lookup m' k) v (ground arith)

deep_equal_sound : (m m' : GoMap Text) → IsMap m → IsMap m' → deep_equal m m' ≡ true → Same m m'
deep_equal_sound [] [] d d' h j = refl
deep_equal_sound [] (x ∷ m') d d' h j = unfold deep_equal in ground arith
deep_equal_sound ((k, v) ∷ m) m' d d' h j =
    let found : lookup m' k ≡ some v = deep_equal-head k v m m' h in
    sound_step found (
      deep_equal_sound m (erase m' k) d.1 (erase-IsMap m' k d')
        (sym (deep_equal-cons k v m m' d d' found) ∙ h) j)
  where
    sound_step :
        lookup m' k ≡ some v
        → lookup m j ≡ lookup (erase m' k) j
        → lookup ((k, v) ∷ m) j ≡ lookup m' j
    sound_step found ih = unfold lookup in ground (arith, text_eq_iff k j, lookup-erase m' k j)

deep_equal_complete : (m m' : GoMap Text) → IsMap m → IsMap m' → Same m m' → deep_equal m m' ≡ true
deep_equal_complete [] [] d d' s = unfold deep_equal in refl
deep_equal_complete [] ((k, v) ∷ m') d d' s =
    unfold lookup deep_equal in ground (arith, s k, text_eq_refl k)
deep_equal_complete ((k, v) ∷ m) m' d d' s =
    deep_equal-cons k v m m' d d' (sym (s k) ∙ first)
    ∙ deep_equal_complete m (erase m' k) d.1 (erase-IsMap m' k d') rest
  where
    first : lookup ((k, v) ∷ m) k ≡ some v
    first = unfold lookup in rw text_eq_refl

    rest : (j : Text) → lookup m j ≡ lookup (erase m' k) j
    rest j =
        unfold lookup in ground (arith, s j, text_eq_iff k j, lookup-erase m' k j, absent m k d.0)

-- `reflect.DeepEqual` says `true` of two maps exactly when every key has the same value in both.
pub deep_equal-Same :
    (m m' : GoMap Text) → IsMap m → IsMap m' → (deep_equal m m' ≡ true) ↔ Same m m'
deep_equal-Same m m' d d' = (deep_equal_sound m m' d d', deep_equal_complete m m' d d')

-- Maps that are the same have the same sorted keys.
pub sort-keys-Same {ℓ} :
    {V : Type ℓ} (m m' : GoMap V) → IsMap m → IsMap m' → Same m m' → sort (keys m) ≡ sort (keys m')
sort-keys-Same m m' d d' s =
    Increasing-unique (sort (keys m)) (sort (keys m')) (Distinct-Increasing (keys m) d)
      (Distinct-Increasing (keys m') d')
      λ k.
        contains-sort (keys m) k
        ∙ contains-has_key m k
        ∙ has_key-lookup m k
        ∙ rw (s k) (sym (contains-sort (keys m') k ∙ contains-has_key m' k ∙ has_key-lookup m' k))
