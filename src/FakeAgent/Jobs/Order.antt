-- ===== src/FakeAgent/Jobs/Order.antt =====
-- The eligible jobs in the order of their start delays.
use mathlib.Core.List.{Perm}
use mathlib.Core.List.Perm
use azure_pipelines_k8s_agen.Prelude.{
  ◌+◌, ◌≤◌, List, [], ◌∷◌, arith, keep, ltb_ℤ, pos_part, neg_part, Bool-cases, inl, inr,
}
use azure_pipelines_k8s_agen.Text.{Text}
use azure_pipelines_k8s_agen.FakeAgent.Jobs.{
  SeenJob, is_eligible, insert_by_delay, sort_by_delay, get_eligible_jobs_sorted_by_start_delay,
}

-- The delay of the one is at most that of the other.
abbrev pub NotAfter : SeenJob → SeenJob → Type 0
NotAfter a b =
    pos_part a.start_delay + neg_part b.start_delay
    ≤ pos_part b.start_delay + neg_part a.start_delay

abbrev pub AllNotBefore : SeenJob → List SeenJob → Type 0
AllNotBefore a [] = Unit
AllNotBefore a (b ∷ jobs) = NotAfter a b × AllNotBefore a jobs

abbrev pub IsOrdered : List SeenJob → Type 0
IsOrdered [] = Unit
IsOrdered (a ∷ jobs) = AllNotBefore a jobs × IsOrdered jobs

AllNotBefore-trans :
    (a b : SeenJob) (jobs : List SeenJob) → NotAfter a b → AllNotBefore b jobs → AllNotBefore a jobs
AllNotBefore-trans a b [] h k = tt
AllNotBefore-trans a b (c ∷ jobs) h (k, ks) =
    (omega (arith, h, k), AllNotBefore-trans a b jobs h ks)

AllNotBefore-insert :
    (a b : SeenJob) (jobs : List SeenJob)
    → NotAfter a b
    → AllNotBefore a jobs
    → AllNotBefore a (insert_by_delay b jobs)
unfolding insert_by_delay
AllNotBefore-insert a b [] h k = (h, tt)
AllNotBefore-insert a b (c ∷ jobs) h (k, ks) =
    elim (Bool-cases (ltb_ℤ c.start_delay b.start_delay)) [
      | inl later ↦ rw later (k, AllNotBefore-insert a b jobs h ks)
      | inr first ↦ rw first (h, (k, ks))
    ]

insert-IsOrdered :
    (job : SeenJob) (jobs : List SeenJob) → IsOrdered jobs → IsOrdered (insert_by_delay job jobs)
unfolding insert_by_delay
insert-IsOrdered job [] o = (tt, tt)
insert-IsOrdered job (j ∷ jobs) (h, o) = elim (Bool-cases (ltb_ℤ j.start_delay job.start_delay)) [
  | inl later ↦
      rw later
        (AllNotBefore-insert j job jobs (ground (arith, later)) h, insert-IsOrdered job jobs o)
  | inr first ↦
      let le : NotAfter job j = ground (arith, first) in
      rw first ((le, AllNotBefore-trans job j jobs le h), (h, o))
]

sort-IsOrdered : (jobs : List SeenJob) → IsOrdered (sort_by_delay jobs)
unfolding sort_by_delay
sort-IsOrdered [] = tt
sort-IsOrdered (job ∷ jobs) = insert-IsOrdered job (sort_by_delay jobs) (sort-IsOrdered jobs)

insert-perm : (job : SeenJob) (jobs : List SeenJob) → Perm (insert_by_delay job jobs) (job ∷ jobs)
unfolding insert_by_delay
insert-perm job [] = Perm.refl _
insert-perm job (j ∷ jobs) = elim (Bool-cases (ltb_ℤ j.start_delay job.start_delay)) [
  | inl later ↦ rw later (Perm.trans (Perm.cons j (insert-perm job jobs)) (Perm.swap _ _ _))
  | inr first ↦ rw first (Perm.refl _)
]

sort-perm : (jobs : List SeenJob) → Perm (sort_by_delay jobs) jobs
unfolding sort_by_delay
sort-perm [] = Perm.refl _
sort-perm (job ∷ jobs) =
    Perm.trans (insert-perm job (sort_by_delay jobs)) (Perm.cons job (sort-perm jobs))

-- The agent tries each pending job whose demands its environment satisfies exactly once, and none
-- before another whose start delay is smaller.
pub get_eligible_jobs_sorted_by_start_delay_lem :
    (environ : List Text) (jobs : List SeenJob)
    → Perm (get_eligible_jobs_sorted_by_start_delay environ jobs) (keep (is_eligible environ) jobs)
      × IsOrdered (get_eligible_jobs_sorted_by_start_delay environ jobs)
unfolding get_eligible_jobs_sorted_by_start_delay
get_eligible_jobs_sorted_by_start_delay_lem environ jobs =
    (sort-perm (keep (is_eligible environ) jobs), sort-IsOrdered (keep (is_eligible environ) jobs))
