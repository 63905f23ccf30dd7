-- ===== src/World/Safe.antt =====
-- What an action may do: whether it may panic, which errors it may return, which pods it may handle, and
-- what its calls leave true of the log. One rule for each way to build an action that keeps to such terms.
use azure_pipelines_k8s_agen.Prelude.{
  Bool, true, false, [], ◌∷◌, Option, none, some, ◌≡◌, refl, if◌then◌else◌,
}
use azure_pipelines_k8s_agen.Text.{Text, text_eq}
use azure_pipelines_k8s_agen.GoMap.{GoMap, has_key, insert}
use azure_pipelines_k8s_agen.RunningPods.{capabilities_annotation_name}
use azure_pipelines_k8s_agen.Go.{
  Result, ok, err, panic, GoError, message, pvc_exhaustion, conflict, return, fail, crash, lift,
  deref, attempt, caught, ◌>>=◌, after, not_nil,
}
use azure_pipelines_k8s_agen.Kube.{Pod}
use azure_pipelines_k8s_agen.World.{Call, Log, Env, Memory}
use azure_pipelines_k8s_agen.World.Prices.{is_plain}
use azure_pipelines_k8s_agen.World.Monad.{M, call, now, read_memory, write_memory}

-- The annotations are those of a pod that the controller has created.
abbrev pub is_created : GoMap Text → Bool
is_created annotations = has_key annotations capabilities_annotation_name

-- `panics` is what must hold where an action panics: nothing does if it must not. `sound` is what
-- holds of each agent pod that is listed. `invariant` is what holds of the log, whatever plain calls are
-- made. `errors` is what holds of each error, also of those that the program makes up itself.
pub record Terms : Type 1 where
  pub panics : Type 0
  pub panics_prop : IsProp panics
  pub errors : GoError → Type 0
  pub messages : (why : Text) → errors (message why)
  pub sound : Pod → Type 0
  pub sound_prop : (pod : Pod) → IsProp (sound pod)
  pub annotated :
      (pod : Pod) (m : GoMap Text)
      → sound pod
      → (is_created pod.annotations ≡ true → is_created m ≡ true)
      → sound (record pod { annotations = m })
  pub written : (pod : Pod) → sound pod → pod.annotations ≡ [] → panics
  pub contained : (pod : Pod) → sound pod → pod.spec.containers ≡ [] → panics
  pub invariant : Log → Type 0
  pub grows : (c : Call) (log : Log) → is_plain c ≡ true → invariant log → invariant (c ∷ log)

-- A deletion of a sound pod, and any creation of a pod, are on the terms too.
abbrev pub AllowsDeletions : Terms → Type 0
AllowsDeletions t =
    (pod : Pod) (log : Log)
    → t.sound pod
    → t.invariant log
    → t.invariant (Call.delete_pod pod ∷ log)

abbrev pub AllowsCreations : Terms → Type 0
AllowsCreations t =
    (pod : Pod) (log : Log) → t.invariant log → t.invariant (Call.create_pod pod ∷ log)

abbrev pub Anything : {A : Type 0} → A → Type 0
Anything a = Unit

module _ (t : Terms) where
  -- The predicate holds of the value, if there is one, and an error or a panic is on the terms.
  abbrev pub Holds : {A : Type 0} → (A → Type 0) → Result A → Type 0
  Holds Q (ok a) = Q a
  Holds Q (err e) = t.errors e
  Holds Q panic = t.panics

  -- `*p` is on the terms.
  abbrev pub Given : {A : Type 0} → Option A → Type 0
  Given none = t.panics
  Given (some _) = Unit

  -- A write to the map is on the terms.
  abbrev pub CanWrite : GoMap Text → Type 0
  CanWrite [] = t.panics
  CanWrite (_ ∷ _) = Unit

  pub record Safe {A : Type 0} (Q : A → Type 0) (m : M A) : Type 0 where
    pub value : (s : Memory) → Holds Q (m s).0
    pub keeps : (s : Memory) → t.invariant s.log → t.invariant (m s).1.log

  pub Holds-panics : {A : Type 0} (Q : A → Type 0) (r : Result A) → Holds Q r → r ≡ panic → t.panics
  Holds-panics Q (ok a) h e = absurd cc
  Holds-panics Q (err x) h e = absurd cc
  Holds-panics Q panic h e = h

  pub Holds-Anything :
      {A : Type 0} (r : Result A) → t.panics → ((e : GoError) → t.errors e) → Holds Anything r
  Holds-Anything (ok a) p q = tt
  Holds-Anything (err e) p q = q e
  Holds-Anything panic p q = p

  pub CanWrite-panics : (m : GoMap Text) → t.panics → CanWrite m
  CanWrite-panics [] p = p
  CanWrite-panics (x ∷ m) p = tt

  pub insert-CanWrite : (m : GoMap Text) (k v : Text) → CanWrite (insert m k v)
  unfolding insert
  insert-CanWrite [] k v = tt
  insert-CanWrite ((j, w) ∷ m) k v = of (text_eq j k)
    where
      of : (b : Bool) → CanWrite (if b then (k, v) ∷ m else (j, w) ∷ insert m k v)
      of true = tt
      of false = tt

  pub sound-CanWrite : (pod : Pod) → t.sound pod → CanWrite pod.annotations
  sound-CanWrite pod h = of pod.annotations refl
    where
      of : (m : GoMap Text) → pod.annotations ≡ m → CanWrite m
      of [] e = t.written pod h e
      of (x ∷ m) e = tt

  pub Given-panics : {A : Type 0} (o : Option A) → t.panics → Given o
  Given-panics none p = p
  Given-panics (some a) p = tt

  pub Given-prop : {A : Type 0} (o : Option A) → IsProp (Given o)
  Given-prop none = t.panics_prop
  Given-prop (some a) = hlevel

  attempted :
      {A : Type 0} (Q : A → Type 0) (r : Result A) (s : Memory)
      → Holds Q r
      → Holds (Holds Q) (caught r s).0
  attempted Q (ok a) s h = h
  attempted Q (err e) s h = h
  attempted Q panic s h = h

  caught-log :
      {A : Type 0} (r : Result A) (s : Memory) → t.invariant s.log → t.invariant (caught r s).1.log
  caught-log (ok a) s c = c
  caught-log (err e) s c = c
  caught-log panic s c = c

  Holds-weaker : {A : Type 0} (Q : A → Type 0) (r : Result A) → Holds Q r → Holds Anything r
  Holds-weaker Q (ok a) h = tt
  Holds-weaker Q (err e) h = h
  Holds-weaker Q panic h = h

module _ {t : Terms} {A : Type 0} (Q : A → Type 0) where
  pub Safe-return : (a : A) → Q a → Safe t Q (return a)
  unfolding return
  Safe-return a h = record { value = λ s. h; keeps = λ s c. c }

  pub Safe-fail : (e : GoError) → t.errors e → Safe t Q (fail e)
  unfolding fail
  Safe-fail e h = record { value = λ s. h; keeps = λ s c. c }

  pub Safe-crash : t.panics → Safe t Q crash
  unfolding crash
  Safe-crash p = record { value = λ s. p; keeps = λ s c. c }

  pub Safe-lift : (r : Result A) → Holds t Q r → Safe t Q (lift r)
  unfolding lift
  Safe-lift r h = record { value = λ s. h; keeps = λ s c. c }

  -- A plain call.
  pub Safe-call :
      (c : Call) (f : Log → Result A)
      → ((log : Log) → Holds t Q (f log))
      → is_plain c ≡ true
      → Safe t Q (call c f)
  unfolding call
  Safe-call c f h k = record { value = λ s. h s.log; keeps = λ s. t.grows c s.log k }

  -- Any call after which the log is on the terms.
  pub Safe-change :
      (c : Call) (f : Log → Result A)
      → ((log : Log) → Holds t Q (f log))
      → ((log : Log) → t.invariant log → t.invariant (c ∷ log))
      → Safe t Q (call c f)
  unfolding call
  Safe-change c f h k = record { value = λ s. h s.log; keeps = λ s. k s.log }

  pub Safe-if :
      (b : Bool) (m m' : M A)
      → (b ≡ true → Safe t Q m)
      → (b ≡ false → Safe t Q m')
      → Safe t Q (if b then m else m')
  Safe-if true m m' h h' = h refl
  Safe-if false m m' h h' = h' refl

  pub Safe-either :
      (b : Bool) (m m' : M A) → Safe t Q m → Safe t Q m' → Safe t Q (if b then m else m')
  Safe-either true m m' h h' = h
  Safe-either false m m' h h' = h'

  -- The error becomes a value.
  pub Safe-attempt : (m : M A) → Safe t Q m → Safe t (Holds t Q) (attempt m)
  unfolding attempt
  Safe-attempt m h = record {
    value = λ s. attempted t Q (m s).0 (m s).1 (h.value s);
    keeps = λ s c. caught-log t (m s).0 (m s).1 (h.keeps s c);
  }

  pub Safe-weaker : (m : M A) → Safe t Q m → Safe t Anything m
  Safe-weaker m h = record { value = λ s. Holds-weaker t Q (m s).0 (h.value s); keeps = h.keeps }

-- The exhaustion of claims is on the terms.
abbrev pub AllowsExhaustion : Terms → Type 0
AllowsExhaustion t = (name : Text) → t.errors (pvc_exhaustion name)

-- The terms, with the exhaustion of claims as one more error.
abbrev pub OrExhaustion : (GoError → Type 0) → GoError → Type 0
OrExhaustion P (message why) = P (message why)
OrExhaustion P (pvc_exhaustion name) = Unit
OrExhaustion P conflict = P conflict

abbrev pub exhausting : Terms → Terms
exhausting t = record {
  panics = t.panics;
  panics_prop = t.panics_prop;
  errors = OrExhaustion t.errors;
  messages = t.messages;
  sound = t.sound;
  sound_prop = t.sound_prop;
  annotated = t.annotated;
  written = t.written;
  contained = t.contained;
  invariant = t.invariant;
  grows = t.grows;
}

module _ (t : Terms) where
  pub exhausting_errors : (e : GoError) → t.errors e → OrExhaustion t.errors e
  exhausting_errors (message why) h = h
  exhausting_errors (pvc_exhaustion name) h = tt
  exhausting_errors conflict h = h

  pub Holds-exhausting :
      {A : Type 0} (Q : A → Type 0) (r : Result A) → Holds t Q r → Holds (exhausting t) Q r
  Holds-exhausting Q (ok a) h = h
  Holds-exhausting Q (err e) h = exhausting_errors e h
  Holds-exhausting Q panic h = h

module _ {t : Terms} {A : Type 0} (Q : A → Type 0) where
  -- What is caught is a value, so it may be on wider terms.
  pub Safe-caught :
      (m : M A) → Safe (exhausting t) Q m → Safe t (Holds (exhausting t) Q) (attempt m)
  unfolding attempt
  Safe-caught m h = record {
    value = λ s. of (m s).0 (m s).1 (h.value s);
    keeps = λ s c. caught-log t (m s).0 (m s).1 (h.keeps s c);
  }
    where
      of :
          (r : Result A) (s : Memory)
          → Holds (exhausting t) Q r
          → Holds t (Holds (exhausting t) Q) (caught r s).0
      of (ok a) s h = h
      of (err e) s h = h
      of panic s h = h

module _ {t : Terms} where
  pub Safe-deref : {A : Type 0} (o : Option A) → Given t o → Safe t Anything (deref o)
  unfolding deref
  Safe-deref none h = record { value = λ s. h; keeps = λ s c. c }
  Safe-deref (some a) h = record { value = λ s. tt; keeps = λ s c. c }

  pub Safe-not_nil : (m : GoMap Text) → CanWrite t m → Safe t Anything (not_nil m)
  unfolding not_nil
  Safe-not_nil [] h = record { value = λ s. h; keeps = λ s c. c }
  Safe-not_nil (x ∷ m) h = record { value = λ s. tt; keeps = λ s c. c }

  pub Safe-read_memory : Safe t Anything read_memory
  unfolding read_memory
  Safe-read_memory = record { value = λ s. tt; keeps = λ s c. c }

  pub Safe-write_memory :
      (f : Memory → Memory)
      → ((s : Memory) → t.invariant s.log → t.invariant (f s).log)
      → Safe t Anything (write_memory f)
  unfolding write_memory
  Safe-write_memory f h = record { value = λ s. tt; keeps = h }

  pub Safe-now : (env : Env) → Safe t Anything (now env)
  Safe-now env = Safe-call Anything _ _ (λ log. tt) refl

module _ {t : Terms} {A B : Type 0} (P : A → Type 0) (Q : B → Type 0) where
  after_holds :
      (r : Result A) (f : A → M B) (s : Memory)
      → Holds t P r
      → ((a : A) → P a → Safe t Q (f a))
      → Holds t Q (after r f s).0
  after_holds (ok a) f s h k = (k a h).value s
  after_holds (err e) f s h k = h
  after_holds panic f s h k = h

  after_keeps :
      (r : Result A) (f : A → M B) (s : Memory)
      → Holds t P r
      → ((a : A) → P a → Safe t Q (f a))
      → t.invariant s.log
      → t.invariant (after r f s).1.log
  after_keeps (ok a) f s h k c = (k a h).keeps s c
  after_keeps (err e) f s h k c = c
  after_keeps panic f s h k c = c

  pub Safe-bind :
      (m : M A) (f : A → M B) → Safe t P m → ((a : A) → P a → Safe t Q (f a)) → Safe t Q (m >>= f)
  unfolding ◌>>=◌
  Safe-bind m f h k = record {
    value = λ s. after_holds (m s).0 f (m s).1 (h.value s) k;
    keeps = λ s c. after_keeps (m s).0 f (m s).1 (h.value s) k (h.keeps s c);
  }

module _ {t : Terms} {A B : Type 0} (Q : B → Type 0) where
  -- Where nothing is known of the value of the first part.
  pub Safe-then :
      (m : M A) (f : A → M B) → Safe t Anything m → ((a : A) → Safe t Q (f a)) → Safe t Q (m >>= f)
  Safe-then m f h k = Safe-bind Anything Q m f h (λ a _. k a)
