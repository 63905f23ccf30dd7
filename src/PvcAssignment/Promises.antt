-- ===== src/PvcAssignment/Promises.antt =====
-- Lists of claims, some of which are promised to a pod.
use azure_pipelines_k8s_agen.Prelude.{
  ℕ, ◌+◌, true, false, List, [], ◌∷◌, some, ◌≡◌, subst, ap, arith, Bool-cases, inl, inr,
}
use azure_pipelines_k8s_agen.Text.{Text, text_eq_refl}
use azure_pipelines_k8s_agen.GoMap.{GoMap, insert, has_key}
use azure_pipelines_k8s_agen.Kube.{PersistentVolumeClaim}
use azure_pipelines_k8s_agen.CacheVolumes.{get_unpromised_pvc, is_available, is_promised}
use azure_pipelines_k8s_agen.PvcAssignment.{promise, promise_first}

-- The second list is the first, where claims that were promised to no pod have been promised to this
-- one, and together weigh `n` as they are promised.
pub data Promises (weight : PersistentVolumeClaim → ℕ) (pod_name : Text)
    : List PersistentVolumeClaim → List PersistentVolumeClaim → ℕ → Type 0 where
  no_claims : Promises weight pod_name [] [] 0
  left_alone :
      {pvcs pvcs' : List PersistentVolumeClaim} {n : ℕ} (pvc : PersistentVolumeClaim)
      → Promises weight pod_name pvcs pvcs' n
      → Promises weight pod_name (pvc ∷ pvcs) (pvc ∷ pvcs') n
  promised :
      {pvcs pvcs' : List PersistentVolumeClaim} {n : ℕ} (pvc : PersistentVolumeClaim)
      → is_promised pvc ≡ false
      → Promises weight pod_name pvcs pvcs' n
      → Promises weight pod_name
          (pvc ∷ pvcs)
          (promise pod_name pvc ∷ pvcs')
          (weight (promise pod_name pvc) + n)

has_key-insert : (m : GoMap Text) (k v : Text) → has_key (insert m k v) k ≡ true
unfolding has_key insert
has_key-insert [] k v = ground (arith, text_eq_refl k)
has_key-insert ((j, w) ∷ m) k v = ground (arith, text_eq_refl k, has_key-insert m k v)

some_injective : (a b : PersistentVolumeClaim) → some a ≡ some b → a ≡ b
some_injective a b e = cc

unpromised :
    (volume_name : Text) (pvc : PersistentVolumeClaim)
    → is_available volume_name pvc ≡ true
    → is_promised pvc ≡ false
unpromised volume_name pvc e = ground (arith, e)

counted :
    {weight : PersistentVolumeClaim → ℕ} {pod_name : Text} {a b : List PersistentVolumeClaim}
    {n k : ℕ}
    → n ≡ k
    → Promises weight pod_name a b n
    → Promises weight pod_name a b k
counted {weight} {pod_name} {a} {b} e p = subst (Promises weight pod_name a b) e p

module _ (weight : PersistentVolumeClaim → ℕ) (pod_name : Text) where
  pub Promises-refl : (pvcs : List PersistentVolumeClaim) → Promises weight pod_name pvcs pvcs 0
  Promises-refl [] = no_claims
  Promises-refl (pvc ∷ pvcs) = left_alone pvc (Promises-refl pvcs)

  is_promised-promise : (pvc : PersistentVolumeClaim) → is_promised (promise pod_name pvc) ≡ true
  is_promised-promise pvc = has_key-insert pvc.annotations _ _

  pub Promises-trans :
      {a b c : List PersistentVolumeClaim} {n k : ℕ}
      → Promises weight pod_name a b n
      → Promises weight pod_name b c k
      → Promises weight pod_name a c (n + k)
  Promises-trans no_claims no_claims = counted (omega arith) no_claims
  Promises-trans (left_alone pvc p) (left_alone _ q) = left_alone pvc (Promises-trans p q)
  Promises-trans (left_alone pvc p) (promised _ h q) =
      counted (omega arith) (promised pvc h (Promises-trans p q))
  Promises-trans (promised pvc h p) (left_alone _ q) =
      counted (omega arith) (promised pvc h (Promises-trans p q))
  Promises-trans (promised pvc h p) (promised _ h' q) = absurd (cc (is_promised-promise pvc, h'))

  -- The first available claim is one that has not been promised.
  pub promise_first-Promises :
      (pvcs : List PersistentVolumeClaim) (volume_name : Text) (found : PersistentVolumeClaim)
      → get_unpromised_pvc pvcs volume_name ≡ some found
      → Promises weight pod_name pvcs
          (promise_first pvcs volume_name pod_name)
          (weight (promise pod_name found))
  unfolding get_unpromised_pvc promise_first
  promise_first-Promises [] volume_name found e = absurd cc
  promise_first-Promises (pvc ∷ pvcs) volume_name found e =
      elim (Bool-cases (is_available volume_name pvc)) [
        | inl available ↦
            let same : pvc ≡ found = some_injective pvc found (rw available at e) in
            rw available (
              counted (omega (arith, ap (λ c. weight (promise pod_name c)) same))
                (promised pvc (unpromised volume_name pvc available) (Promises-refl pvcs)))
        | inr other ↦
            rw other
              (left_alone pvc (promise_first-Promises pvcs volume_name found (rw other at e)))
      ]
