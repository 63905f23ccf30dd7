-- ===== src/PvcRelease/Grace.antt =====
-- The seconds of grace for a pod that is missing from the list, and how long it is remembered.
use azure_pipelines_k8s_agen.Prelude.{
  ℕ, ◌+◌, ◌*◌, Bool, [], ◌∷◌, Option, none, some, ◌≡◌, refl, sym, subst, ◌∙◌, ap, ◌≤◌, ◌<◌, arith,
  true, false, ltb, if◌then◌else◌, Bool-cases, inl, inr, ◌⊎◌, ltb→lt,
}
use azure_pipelines_k8s_agen.Text.{Text, text_eq, text_eq_refl, text_eq_iff}
use azure_pipelines_k8s_agen.Text.Sort.{contains}
use azure_pipelines_k8s_agen.GoMap.{
  GoMap, keys, contains-has_key, lookup, insert, get_or, has_key, erase, IsMap, insert-IsMap,
  lookup-insert, lookup-erase, has_key-lookup,
}
use azure_pipelines_k8s_agen.Go.{Result, ok, return, ◌>>=◌, ◌>>◌}
use azure_pipelines_k8s_agen.World.{Env, Call, Log, Memory}
use azure_pipelines_k8s_agen.World.Monad.{call, now, read_memory, write_memory}
use azure_pipelines_k8s_agen.World.Steps.{bind_ok}
use azure_pipelines_k8s_agen.PvcRelease.{
  second, note_disappeared, collect_disappeared, collect_all, has_pod_permanently_disappeared,
}

some_injective : (a b : ℕ) → some a ≡ some b → a ≡ b
some_injective a b e = cc

absent : (m : GoMap ℕ) (k : Text) → contains (keys m) k ≡ false → lookup m k ≡ none
absent m k h = of (lookup m k) (sym (has_key-lookup m k) ∙ sym (contains-has_key m k) ∙ h)
  where
    of : (o : Option ℕ) → (elim o [ none ↦ false | some _ ↦ true ]) ≡ false → o ≡ none
    of none e = refl
    of (some v) e = absurd cc

module _ (env : Env) where
  -- The garbage collection never fails.
  collect_disappeared-ok :
      (entries : GoMap ℕ) (s : Memory) → (collect_disappeared env entries s).0 ≡ ok tt
  unfolding collect_disappeared ◌>>=◌ call write_memory
  collect_disappeared-ok [] s = refl
  collect_disappeared-ok ((pod_name, t) ∷ entries) s =
      elim (Bool-cases (ltb (t + 60 * second) (env.now s.log))) [
        | inl old ↦ rw old (collect_disappeared-ok entries _)
        | inr young ↦ rw young (collect_disappeared-ok entries _)
      ]

  collect_all-ok : (m : GoMap ℕ) (s : Memory) → (collect_all env m s).0 ≡ ok tt
  unfolding collect_all ◌>>=◌ call
  collect_all-ok m s = collect_disappeared-ok (env.range_times s.log m) _

  -- The rest of the function, once the pod has been noted.
  after_note :
      (pod_name : Text) (t : ℕ) (s : Memory)
      → lookup s.disappeared_pods pod_name ≡ some t
      → ((read_memory >>= λ m. now env >>= λ t'.
            collect_all env m.disappeared_pods
            >> return (ltb (get_or m.disappeared_pods pod_name 0 + 5 * second) t'))
          s).0
        ≡ ok (ltb (t + 5 * second) (env.now s.log))
  unfolding ◌>>=◌ call read_memory
  after_note pod_name t s e =
      let s' : Memory = record s { log = Call.now ∷ s.log } in
      ap (λ (x : Result Bool × Memory). x.0)
        (bind_ok (collect_all env s.disappeared_pods)
          (λ _. return (ltb (get_or s.disappeared_pods pod_name 0 + 5 * second) (env.now s.log))) s'
          tt (collect_all-ok s.disappeared_pods s'))
      ∙ ap
          (λ (o : Option ℕ).
            ok (ltb (elim o [ none ↦ 0 | some v ↦ v ] + 5 * second) (env.now s.log)))
          e

  note_known :
      (pod_name : Text) (t : ℕ) (s : Memory)
      → lookup s.disappeared_pods pod_name ≡ some t
      → note_disappeared env pod_name s ≡ (ok tt, s)
  unfolding note_disappeared ◌>>=◌ read_memory
  note_known pod_name t s e = rw (has_key-lookup s.disappeared_pods pod_name, e) refl

  -- The memory once the pod has been noted.
  abbrev noted : Text → Memory → Memory
  noted pod_name s = record s {
    log = Call.now ∷ s.log;
    disappeared_pods = insert s.disappeared_pods pod_name (env.now s.log);
  }

  note_unknown :
      (pod_name : Text) (s : Memory)
      → lookup s.disappeared_pods pod_name ≡ none
      → note_disappeared env pod_name s ≡ (ok tt, noted pod_name s)
  unfolding note_disappeared ◌>>=◌ read_memory write_memory call
  note_unknown pod_name s e = rw (has_key-lookup s.disappeared_pods pod_name, e) refl

  -- The pods that are remembered once the pod has been noted, with the times at which they were first
  -- missed.
  abbrev pub remembered : Text → Memory → GoMap ℕ
  remembered pod_name s =
      if has_key s.disappeared_pods pod_name
      then s.disappeared_pods
      else insert s.disappeared_pods pod_name (env.now s.log)

  answer_known :
      (pod_name : Text) (s : Memory) (t : ℕ)
      → lookup s.disappeared_pods pod_name ≡ some t
      → (has_pod_permanently_disappeared env pod_name s).0
        ≡ ok (ltb (t + 5 * second) (env.now s.log))
  unfolding has_pod_permanently_disappeared ◌>>=◌
  answer_known pod_name s t e = rw (note_known pod_name t s e) (after_note pod_name t s e)

  answer_unknown :
      (pod_name : Text) (s : Memory)
      → lookup s.disappeared_pods pod_name ≡ none
      → (has_pod_permanently_disappeared env pod_name s).0
        ≡ ok (ltb (env.now s.log + 5 * second) (env.now (Call.now ∷ s.log)))
  unfolding has_pod_permanently_disappeared ◌>>=◌
  answer_unknown pod_name s e = rw (note_unknown pod_name s e) (
      after_note pod_name (env.now s.log) (noted pod_name s) (
        lookup-insert s.disappeared_pods pod_name (env.now s.log) pod_name
        ∙ ap (λ b. if b then some (env.now s.log) else lookup s.disappeared_pods pod_name)
            (text_eq_refl pod_name)))

  -- The state once an entry has been visited.
  abbrev visited : Text → ℕ → Memory → Memory
  visited pod_name t s = record s {
    log = Call.now ∷ s.log;
    disappeared_pods =
        if ltb (t + 60 * second) (env.now s.log)
        then erase s.disappeared_pods pod_name
        else s.disappeared_pods;
  }

  collect_step :
      (pod_name : Text) (t : ℕ) (entries : GoMap ℕ) (s : Memory)
      → collect_disappeared env ((pod_name, t) ∷ entries) s
        ≡ collect_disappeared env entries (visited pod_name t s)
  unfolding collect_disappeared ◌>>=◌ call write_memory
  collect_step pod_name t entries s = elim (Bool-cases (ltb (t + 60 * second) (env.now s.log))) [
    | inl old ↦ rw old refl
    | inr young ↦ rw young refl
  ]

  collect-none :
      (entries : GoMap ℕ) (s : Memory) (name : Text)
      → lookup s.disappeared_pods name ≡ none
      → lookup (collect_disappeared env entries s).1.disappeared_pods name ≡ none
  unfolding collect_disappeared return
  collect-none [] s name e = e
  collect-none ((pod_name, t) ∷ entries) s name e = rw (collect_step pod_name t entries s) (
      collect-none entries (visited pod_name t s) name
        (ground (arith, e, lookup-erase s.disappeared_pods pod_name name)))

  -- An entry that is too old when the collection begins is forgotten.
  collect-old :
      (entries : GoMap ℕ) (s : Memory) (name : Text) (t : ℕ)
      → ((c : Call) (log : Log) → env.now log ≤ env.now (c ∷ log))
      → lookup entries name ≡ some t
      → t + 60 * second < env.now s.log
      → lookup (collect_disappeared env entries s).1.disappeared_pods name ≡ none
  unfolding lookup
  collect-old [] s name t later e h = absurd cc
  collect-old ((pod_name, u) ∷ entries) s name t later e h =
      rw (collect_step pod_name u entries s) (elim (Bool-cases (text_eq pod_name name)) [
        | inl same ↦
            let at : u ≡ t = some_injective u t (rw same at e) in
            collect-none entries (visited pod_name u s) name
              (ground (arith, h, at, same, lookup-erase s.disappeared_pods pod_name name))
        | inr other ↦
            collect-old entries (visited pod_name u s) name t later (rw other at e)
              (omega (arith, h, later Call.now s.log))
      ])

  collect-later :
      (entries : GoMap ℕ) (s : Memory)
      → ((c : Call) (log : Log) → env.now log ≤ env.now (c ∷ log))
      → env.now s.log ≤ env.now (collect_disappeared env entries s).1.log
  unfolding collect_disappeared return
  collect-later [] s later = omega arith
  collect-later ((pod_name, t) ∷ entries) s later =
      rw (collect_step pod_name t entries s)
        (omega (arith, later Call.now s.log, collect-later entries (visited pod_name t s) later))

  -- An entry that is not too old when the collection ends is still remembered.
  collect-young :
      (entries : GoMap ℕ) (s : Memory) (name : Text) (t : ℕ)
      → ((c : Call) (log : Log) → env.now log ≤ env.now (c ∷ log))
      → IsMap entries
      → lookup s.disappeared_pods name ≡ some t
      → ((u : ℕ)
          → lookup entries name ≡ some u
          → env.now (collect_disappeared env entries s).1.log ≤ u + 60 * second)
      → lookup (collect_disappeared env entries s).1.disappeared_pods name ≡ some t
  unfolding collect_disappeared lookup return
  collect-young [] s name t later d e h = e
  collect-young ((pod_name, u) ∷ entries) s name t later (n, d) e h =
      let s' = visited pod_name u s in
      let final : Memory = (collect_disappeared env entries s').1 in
      let h' : (v : ℕ)
          → lookup ((pod_name, u) ∷ entries) name ≡ some v
          → env.now final.log ≤ v + 60 * second =
        subst
          (λ (x : Result (Unit {0}) × Memory).
            (v : ℕ)
            → lookup ((pod_name, u) ∷ entries) name ≡ some v
            → env.now x.1.log ≤ v + 60 * second)
          (collect_step pod_name u entries s) h in
      rw (collect_step pod_name u entries s) (elim (Bool-cases (text_eq pod_name name)) [
        | inl same ↦
            let gone : lookup entries name ≡ none =
              absent entries name
                (ap (contains (keys entries)) (sym ((text_eq_iff pod_name name).0 same)) ∙ n) in
            let young : ltb (u + 60 * second) (env.now s.log) ≡ false =
              ground (
                arith,
                h' u (rw same refl),
                later Call.now s.log,
                collect-later entries s' later,
              ) in
            collect-young entries s' name t later d (rw young e) (λ v f. absurd (cc (gone, f)))
        | inr other ↦
            collect-young entries s' name t later d
              (ground (arith, e, other, lookup-erase s.disappeared_pods pod_name name))
              (λ v f. h' v (rw other f))
      ])

  -- After the pod has been noted, the collection runs over what is remembered.
  rest_collects :
      (pod_name : Text) (s : Memory)
      → ((read_memory >>= λ m. now env >>= λ t'.
            collect_all env m.disappeared_pods
            >> return (ltb (get_or m.disappeared_pods pod_name 0 + 5 * second) t'))
          s).1
        ≡ (collect_all env s.disappeared_pods (record s { log = Call.now ∷ s.log })).1
  unfolding ◌>>=◌ call read_memory return
  rest_collects pod_name s =
      let s' : Memory = record s { log = Call.now ∷ s.log } in
      ap (λ (x : Result Bool × Memory). x.1)
        (bind_ok (collect_all env s.disappeared_pods)
          (λ _. return (ltb (get_or s.disappeared_pods pod_name 0 + 5 * second) (env.now s.log))) s'
          tt (collect_all-ok s.disappeared_pods s'))

  -- The state from which the collection begins.
  collected :
      (pod_name : Text) (s : Memory)
      → ((c : Call) (log : Log) → env.now log ≤ env.now (c ∷ log))
      → (s' : Memory) × ((has_pod_permanently_disappeared env pod_name s).1
          ≡ (collect_all env s'.disappeared_pods s').1)
        × (s'.disappeared_pods ≡ remembered pod_name s)
        × (env.now s.log ≤ env.now s'.log)
  unfolding has_pod_permanently_disappeared ◌>>=◌
  collected pod_name s later = of (lookup s.disappeared_pods pod_name) refl
    where
      of :
          (o : Option ℕ)
          → lookup s.disappeared_pods pod_name ≡ o
          → (s' : Memory) × ((has_pod_permanently_disappeared env pod_name s).1
              ≡ (collect_all env s'.disappeared_pods s').1)
            × (s'.disappeared_pods ≡ remembered pod_name s)
            × (env.now s.log ≤ env.now s'.log)
      of none e = (
        record (noted pod_name s) { log = Call.now ∷ Call.now ∷ s.log },
        rw (note_unknown pod_name s e) (rest_collects pod_name (noted pod_name s)),
        rw (has_key-lookup s.disappeared_pods pod_name, e) refl,
        omega (arith, later Call.now s.log, later Call.now (Call.now ∷ s.log)),
      )
      of (some t) e = (
        record s { log = Call.now ∷ s.log },
        rw (note_known pod_name t s e) (rest_collects pod_name s),
        rw (has_key-lookup s.disappeared_pods pod_name, e) refl,
        later Call.now s.log,
      )

  remembered-IsMap :
      (pod_name : Text) (s : Memory) → IsMap s.disappeared_pods → IsMap (remembered pod_name s)
  remembered-IsMap pod_name s d = elim (Bool-cases (has_key s.disappeared_pods pod_name)) [
    | inl e ↦ rw e d
    | inr e ↦ rw e (insert-IsMap s.disappeared_pods pod_name (env.now s.log) d)
  ]

  collect-either :
      (entries : GoMap ℕ) (s : Memory) (name : Text)
      → (lookup (collect_disappeared env entries s).1.disappeared_pods name
          ≡ lookup s.disappeared_pods name)
        ⊎ (lookup (collect_disappeared env entries s).1.disappeared_pods name ≡ none)
  unfolding collect_disappeared return
  collect-either [] s name = inl refl
  collect-either ((pod_name, t) ∷ entries) s name =
      rw (collect_step pod_name t entries s)
        (elim (collect-either entries (visited pod_name t s) name) [
          | inr gone ↦ inr gone
          | inl kept ↦ ground (arith, kept, lookup-erase s.disappeared_pods pod_name name)
        ])

  -- The log when the answer is worked out.
  abbrev pub noted_log : Text → Memory → Log
  noted_log pod_name s = if has_key s.disappeared_pods pod_name then s.log else Call.now ∷ s.log

  -- Nothing is remembered, or it lies no more than sixty seconds back; it lies further back.
  abbrev pub IsYoung : ℕ → Option ℕ → Type 0
  IsYoung at none = Unit
  IsYoung at (some t) = at ≤ t + 60 * second

  abbrev pub IsOld : ℕ → Option ℕ → Type 0
  IsOld at none = ⊥
  IsOld at (some t) = t + 60 * second < at

  -- What becomes of a pod in the collection.
  fate :
      (entries : GoMap ℕ) (s : Memory) (name : Text) (start : ℕ)
      → ((c : Call) (log : Log) → env.now log ≤ env.now (c ∷ log))
      → IsMap entries
      → ((k : Text) → lookup entries k ≡ lookup s.disappeared_pods k)
      → start ≤ env.now s.log
      → ((lookup (collect_disappeared env entries s).1.disappeared_pods name
            ≡ lookup s.disappeared_pods name)
          × IsYoung start (lookup s.disappeared_pods name))
        ⊎ ((lookup (collect_disappeared env entries s).1.disappeared_pods name ≡ none)
            × IsOld
                (env.now (collect_disappeared env entries s).1.log)
                (lookup s.disappeared_pods name))
  fate entries s name start later d visits le = of (lookup s.disappeared_pods name) refl
    where
      of :
          (o : Option ℕ)
          → lookup s.disappeared_pods name ≡ o
          → ((lookup (collect_disappeared env entries s).1.disappeared_pods name ≡ o)
              × IsYoung start o)
            ⊎ ((lookup (collect_disappeared env entries s).1.disappeared_pods name ≡ none)
                × IsOld (env.now (collect_disappeared env entries s).1.log) o)
      of none e = inl (collect-none entries s name e, tt)
      of (some t) e = elim (Bool-cases (ltb (t + 60 * second) (env.now s.log))) [
        | inl old ↦
            let less : t + 60 * second < env.now s.log =
              ltb→lt (t + 60 * second) (env.now s.log) old in
            inr (
              collect-old entries s name t later (visits name ∙ e) less,
              omega (arith, less, collect-later entries s later),
            )
        | inr young ↦
            let not_less : env.now s.log ≤ t + 60 * second = grind arith in
            elim (Bool-cases
              (ltb (t + 60 * second) (env.now (collect_disappeared env entries s).1.log))) [
                | inr still ↦
                    let bound : env.now (collect_disappeared env entries s).1.log
                        ≤ t + 60 * second =
                      grind arith in
                    inl (
                      collect-young entries s name t later d e (λ u f.
                          let at : u ≡ t = some_injective u t (sym f ∙ visits name ∙ e) in
                          omega (arith, at, bound)),
                      omega (arith, le, not_less),
                    )
                | inl late ↦ elim (collect-either entries s name) [
                  | inl kept ↦ inl (kept ∙ e, omega (arith, le, not_less))
                  | inr gone ↦ inr (
                    gone,
                    ltb→lt (t + 60 * second) (env.now (collect_disappeared env entries s).1.log)
                        late,
                  )
                ]
              ]
      ]

  answer :
      (pod_name : Text) (s : Memory)
      → (has_pod_permanently_disappeared env pod_name s).0
        ≡ ok (
            ltb
              (get_or (remembered pod_name s) pod_name 0 + 5 * second)
              (env.now (noted_log pod_name s)))
  answer pod_name s = of (lookup s.disappeared_pods pod_name) refl
    where
      of :
          (o : Option ℕ)
          → lookup s.disappeared_pods pod_name ≡ o
          → (has_pod_permanently_disappeared env pod_name s).0
            ≡ ok (
                ltb
                  (get_or (remembered pod_name s) pod_name 0 + 5 * second)
                  (env.now (noted_log pod_name s)))
      of (some t) e =
          rw (has_key-lookup s.disappeared_pods pod_name, e)
            (answer_known pod_name s t e
              ∙ ap
                  (λ (o : Option ℕ).
                    ok (ltb (elim o [ none ↦ 0 | some v ↦ v ] + 5 * second) (env.now s.log)))
                  (sym e))
      of none e =
          let at : lookup (insert s.disappeared_pods pod_name (env.now s.log)) pod_name
              ≡ some (env.now s.log) =
            lookup-insert s.disappeared_pods pod_name (env.now s.log) pod_name
            ∙ ap (λ b. if b then some (env.now s.log) else lookup s.disappeared_pods pod_name)
                (text_eq_refl pod_name) in
          rw (has_key-lookup s.disappeared_pods pod_name, e)
            (answer_unknown pod_name s e
              ∙ ap
                  (λ (o : Option ℕ). ok (
                    ltb (elim o [ none ↦ 0 | some v ↦ v ] + 5 * second)
                      (env.now (Call.now ∷ s.log))))
                  (sym at))

  -- `range` visits each entry of a map once.
  abbrev pub VisitsAll : Type 0
  VisitsAll =
      (log : Log) (m : GoMap ℕ)
      → IsMap m
      → IsMap (env.range_times log m) × ((k : Text) → lookup (env.range_times log m) k ≡ lookup m k)

  -- Where the clock does not go back, `range` visits each entry of a map once, and no pod is remembered
  -- twice: a missing pod counts as gone
  -- once more than five seconds have passed since the time that is remembered of it, which is that of a
  -- reading just before if none was; and a pod that is then remembered either stays so with its
  -- time, which is no more than sixty seconds back when the function begins, or is forgotten, and its
  -- time is further back when the function ends; no other pod becomes remembered.
  pub has_pod_permanently_disappeared_lem :
      (pod_name : Text) (s : Memory) (name : Text)
      → ((c : Call) (log : Log) → env.now log ≤ env.now (c ∷ log))
      → VisitsAll
      → IsMap s.disappeared_pods
      → ((has_pod_permanently_disappeared env pod_name s).0
          ≡ ok (
              ltb
                (get_or (remembered pod_name s) pod_name 0 + 5 * second)
                (env.now (noted_log pod_name s))))
        × (((lookup (has_pod_permanently_disappeared env pod_name s).1.disappeared_pods name
                ≡ lookup (remembered pod_name s) name)
              × IsYoung (env.now s.log) (lookup (remembered pod_name s) name))
            ⊎ ((lookup (has_pod_permanently_disappeared env pod_name s).1.disappeared_pods name
                  ≡ none)
                × IsOld
                    (env.now (has_pod_permanently_disappeared env pod_name s).1.log)
                    (lookup (remembered pod_name s) name)))
  unfolding collect_all ◌>>=◌ call
  has_pod_permanently_disappeared_lem pod_name s name later visits d =
      let (s', final, same, le) = collected pod_name s later in
      let is_map : IsMap s'.disappeared_pods =
        subst (λ m. IsMap m) (sym same) (remembered-IsMap pod_name s d) in
      let (once, all) = visits s'.log s'.disappeared_pods is_map in
      (
        answer pod_name s,
        rw (final, sym same)
            (fate (env.range_times s'.log s'.disappeared_pods)
              (record s' { log = Call.range ∷ s'.log }) name (env.now s.log) later once all
              (omega (arith, le, later Call.range s'.log))),
      )
