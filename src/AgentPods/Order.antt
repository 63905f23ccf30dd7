-- ===== src/AgentPods/Order.antt =====
-- The terminated pods that are deleted: as many as there are too many, and those that started first.
-- `sort.Slice` is not stable; the theorem holds of any order in which no pod stands before one that
-- started earlier.
use mathlib.Core.List.{Perm}
use mathlib.Core.List.Perm
use azure_pipelines_k8s_agen.Prelude.{
  ℕ, zero, suc, ◌-◌, ◌≤◌, true, List, [], ◌∷◌, ◌++◌, ◌≡◌, refl, sym, subst, ◌∙◌, ap, arith, length,
  take, drop, length-take, ltb, leb, ltb→lt, Bool-cases, inl, inr,
}
use azure_pipelines_k8s_agen.Go.{ok, return, after, ◌>>=◌}
use azure_pipelines_k8s_agen.Kube.{Pod}
use azure_pipelines_k8s_agen.World.{Env, Call, Log, Memory}
use azure_pipelines_k8s_agen.World.Monad.{call}
use azure_pipelines_k8s_agen.AgentPods.{
  start_of, insert_by_start, sort_by_start, all_started, can_compare, delete_pods, delete_oldest,
}

-- Every pod of the list started at this time or later.
abbrev pub StartFrom : ℕ → List Pod → Type 0
StartFrom t [] = Unit
StartFrom t (p ∷ pods) = (t ≤ start_of p) × StartFrom t pods

-- Every pod of the first list started no later than any of the second.
abbrev pub AllBefore : List Pod → List Pod → Type 0
AllBefore [] others = Unit
AllBefore (p ∷ pods) others = StartFrom (start_of p) others × AllBefore pods others

abbrev OldestFirst : List Pod → Type 0
OldestFirst [] = Unit
OldestFirst (p ∷ pods) = StartFrom (start_of p) pods × OldestFirst pods

StartFrom-le : (t u : ℕ) (pods : List Pod) → t ≤ u → StartFrom u pods → StartFrom t pods
StartFrom-le t u [] le h = tt
StartFrom-le t u (p ∷ pods) le (h, hs) = (omega (arith, h), StartFrom-le t u pods le hs)

insert-StartFrom :
    (t : ℕ) (pod : Pod) (pods : List Pod)
    → t ≤ start_of pod
    → StartFrom t pods
    → StartFrom t (insert_by_start pod pods)
unfolding insert_by_start
insert-StartFrom t pod [] h hs = (h, tt)
insert-StartFrom t pod (p ∷ pods) h (h', hs) = elim (Bool-cases (ltb (start_of p) (start_of pod))) [
  | inl e ↦ rw e (h', insert-StartFrom t pod pods h hs)
  | inr e ↦ rw e (h, (h', hs))
]

insert-OldestFirst :
    (pod : Pod) (pods : List Pod) → OldestFirst pods → OldestFirst (insert_by_start pod pods)
unfolding insert_by_start
insert-OldestFirst pod [] h = (tt, tt)
insert-OldestFirst pod (p ∷ pods) (h, hs) = elim (Bool-cases (ltb (start_of p) (start_of pod))) [
  | inl e ↦ rw e (
    insert-StartFrom (start_of p) pod pods (omega (arith, ltb→lt (start_of p) (start_of pod) e)) h,
    insert-OldestFirst pod pods hs,
  )
  | inr e ↦
      let le : start_of pod ≤ start_of p = grind arith in
      rw e ((le, StartFrom-le (start_of pod) (start_of p) pods le h), (h, hs))
]

sort-OldestFirst : (pods : List Pod) → OldestFirst (sort_by_start pods)
unfolding sort_by_start
sort-OldestFirst [] = tt
sort-OldestFirst (pod ∷ pods) = insert-OldestFirst pod (sort_by_start pods) (sort-OldestFirst pods)

insert-perm : (pod : Pod) (pods : List Pod) → Perm (insert_by_start pod pods) (pod ∷ pods)
unfolding insert_by_start
insert-perm pod [] = Perm.refl _
insert-perm pod (p ∷ pods) = elim (Bool-cases (ltb (start_of p) (start_of pod))) [
  | inl later ↦ rw later (Perm.trans (Perm.cons p (insert-perm pod pods)) (Perm.swap _ _ _))
  | inr first ↦ rw first (Perm.refl _)
]

sort-perm : (pods : List Pod) → Perm (sort_by_start pods) pods
unfolding sort_by_start
sort-perm [] = Perm.refl _
sort-perm (pod ∷ pods) =
    Perm.trans (insert-perm pod (sort_by_start pods)) (Perm.cons pod (sort-perm pods))

take-drop : (n : ℕ) (pods : List Pod) → take n pods ++ drop n pods ≡ pods
take-drop zero pods = refl
take-drop (suc n) [] = refl
take-drop (suc n) (p ∷ pods) = ap (λ l. p ∷ l) (take-drop n pods)

drop-StartFrom : (t n : ℕ) (pods : List Pod) → StartFrom t pods → StartFrom t (drop n pods)
drop-StartFrom t zero pods h = h
drop-StartFrom t (suc n) [] h = tt
drop-StartFrom t (suc n) (p ∷ pods) (h, hs) = drop-StartFrom t n pods hs

take-AllBefore :
    (n : ℕ) (pods : List Pod) → OldestFirst pods → AllBefore (take n pods) (drop n pods)
take-AllBefore zero pods h = tt
take-AllBefore (suc n) [] h = tt
take-AllBefore (suc n) (p ∷ pods) (h, hs) =
    (drop-StartFrom (start_of p) n pods h, take-AllBefore n pods hs)

length-insert_by_start :
    (pod : Pod) (pods : List Pod) → length (insert_by_start pod pods) ≡ suc (length pods)
unfolding insert_by_start
length-insert_by_start pod [] = refl
length-insert_by_start pod (p ∷ pods) = elim (Bool-cases (ltb (start_of p) (start_of pod))) [
  | inl e ↦ rw e (ap suc (length-insert_by_start pod pods))
  | inr e ↦ rw e refl
]

length-sort_by_start : (pods : List Pod) → length (sort_by_start pods) ≡ length pods
unfolding sort_by_start
length-sort_by_start [] = refl
length-sort_by_start (pod ∷ pods) =
    length-insert_by_start pod (sort_by_start pods) ∙ ap suc (length-sort_by_start pods)

can_compare_started : (pods : List Pod) → all_started pods ≡ true → can_compare pods ≡ true
unfolding can_compare
can_compare_started pods h =
    rw h (elim (Bool-cases (leb (length pods) 1)) [ inl e ↦ rw e refl | inr e ↦ rw e refl ])

-- The log once these pods have been deleted, one after the other.
abbrev pub deleted : List Pod → Log → Log
deleted [] log = log
deleted (p ∷ pods) log = deleted pods (Call.delete_pod p ∷ log)

module _ (env : Env) (succeeds : (log : Log) (pod : Pod) → env.delete_pod log pod ≡ ok tt) where
  delete_pods_lem :
      (pods : List Pod) (s : Memory)
      → delete_pods env pods s ≡ (ok tt, record s { log = deleted pods s.log })
  unfolding delete_pods ◌>>=◌ call
  delete_pods_lem [] s = refl
  delete_pods_lem (pod ∷ pods) s =
      rw (succeeds s.log pod, after)
        (delete_pods_lem pods (record s { log = Call.delete_pod pod ∷ s.log }))

  -- Where every pod has a start time and every deletion succeeds, exactly as many pods are deleted
  -- as there are more than the number to keep, those that are deleted and those that are kept are
  -- together the pods, each as often as before, and each that is deleted started no later than any
  -- that is kept.
  pub delete_oldest_lem :
      (max_pods_to_keep : ℕ) (pods : List Pod) (s : Memory)
      → all_started pods ≡ true
      → (delete_oldest env max_pods_to_keep pods s ≡ (
        ok tt,
        record s {
          log = deleted (take (length pods - max_pods_to_keep) (sort_by_start pods)) s.log;
        },
      ))
        × (length (take (length pods - max_pods_to_keep) (sort_by_start pods))
            ≡ length pods - max_pods_to_keep)
        × Perm
            (take (length pods - max_pods_to_keep) (sort_by_start pods)
              ++ drop (length pods - max_pods_to_keep) (sort_by_start pods))
            pods
        × AllBefore
            (take (length pods - max_pods_to_keep) (sort_by_start pods))
            (drop (length pods - max_pods_to_keep) (sort_by_start pods))
  unfolding delete_oldest return
  delete_oldest_lem max_pods_to_keep pods s h = (
    elim (Bool-cases (ltb max_pods_to_keep (length pods))) [
      | inl e ↦
          rw (e, can_compare_started pods h)
            (delete_pods_lem (take (length pods - max_pods_to_keep) (sort_by_start pods)) s)
      | inr e ↦
          let none_left : length pods - max_pods_to_keep ≡ 0 = grind arith in rw (e, none_left) refl
    ],
    length-take (length pods - max_pods_to_keep) (sort_by_start pods)
        ∙ omega (arith, length-sort_by_start pods),
    subst (λ l. Perm l pods) (sym (take-drop (length pods - max_pods_to_keep) (sort_by_start pods)))
        (sort-perm pods),
    take-AllBefore (length pods - max_pods_to_keep) (sort_by_start pods) (sort-OldestFirst pods),
  )
