-- ===== src/World/Steps.antt =====
-- One step of a block, by the result of its first action.
use azure_pipelines_k8s_agen.Prelude.{◌≡◌, refl, ap, arith, Option, none, some}
use azure_pipelines_k8s_agen.Go.{Result, ok, err, panic, deref, after, ◌>>=◌}
use azure_pipelines_k8s_agen.World.{Memory}
use azure_pipelines_k8s_agen.World.Monad.{M}

module _ {A B : Type 0} (m : M A) (f : A → M B) (s : Memory) where
  pub bind_ok : (a : A) → (m s).0 ≡ ok a → (m >>= f) s ≡ f a (m s).1
  unfolding ◌>>=◌
  bind_ok a e = rw (e, after)

module _ {A B : Type 0} where
  pub bind_deref :
      (o : Option A) (a : A) (f : A → M B) (s : Memory) → o ≡ some a → (deref o >>= f) s ≡ f a s
  unfolding ◌>>=◌
  bind_deref none a f s e = cc
  bind_deref (some b) a f s e = ground (arith, ap (λ x. x) e)

  pub bind_missing :
      (o : Option A) (f : A → M B) (s : Memory) → o ≡ none → (deref o >>= f) s ≡ (panic, s)
  unfolding ◌>>=◌
  bind_missing none f s e = refl
  bind_missing (some b) f s e = cc

after_inv :
    {A B : Type 0} (r : Result A × Memory) (f : A → M B) (s' : Memory) (b : B)
    → after r.0 f r.1 ≡ (ok b, s')
    → (a : A) × (t : Memory) × (r ≡ (ok a, t)) × (f a t ≡ (ok b, s'))
after_inv (ok a, t) f s' b e = (a, t, refl, e)
after_inv (err x, t) f s' b e = cc
after_inv (panic, t) f s' b e = cc

-- A block that succeeds is one whose first action succeeds, and whose rest does from there.
pub bind_inv :
    {A B : Type 0} (m : M A) (f : A → M B) (s s' : Memory) (b : B)
    → (m >>= f) s ≡ (ok b, s')
    → (a : A) × (t : Memory) × (m s ≡ (ok a, t)) × (f a t ≡ (ok b, s'))
unfolding ◌>>=◌
bind_inv m f s s' b e = after_inv (m s) f s' b e

-- Two blocks that begin in one way and go on in ways that are the same from every state.
pub after_same :
    {A B : Type 0} (r : Result A) (f g : M B) (s : Memory)
    → ((t : Memory) → f t ≡ g t)
    → after r (λ _. f) s ≡ after r (λ _. g) s
after_same (ok a) f g s h = h s
after_same (err e) f g s h = refl
after_same panic f g s h = refl
