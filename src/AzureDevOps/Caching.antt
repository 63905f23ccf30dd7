-- ===== src/AzureDevOps/Caching.antt =====
-- What the caches of the REST calls save, and what they mix up.
use azure_pipelines_k8s_agen.Prelude.{
  ℕ, Bool, true, false, List, [], ◌∷◌, ◌++◌, Option, none, some, ◌≡◌, refl, sym, ◌∙◌, ap,
  if◌then◌else◌,
}
use azure_pipelines_k8s_agen.Text.{Text, text_eq_refl, text_eq_iff}
use azure_pipelines_k8s_agen.GoMap.{lookup, insert, get_or, lookup-insert}
use azure_pipelines_k8s_agen.Go.{Result, ok, err, panic, return, ◌>>=◌, ◌>>◌}
use azure_pipelines_k8s_agen.Kube.{AutoScaledAgentSpec}
use azure_pipelines_k8s_agen.World.{Env, Call, Log, Memory}
use azure_pipelines_k8s_agen.World.Steps.{bind_inv}
use azure_pipelines_k8s_agen.World.Monad.{call, read_memory, write_memory}
use azure_pipelines_k8s_agen.AzureDevOps.{
  compute_custom_resource_hash, register_and_cache, create_or_update_dummy_agents, is_hash,
  fetch_pool_id, cached_or_fetch, get_pool_id_from_name,
}

-- The value of a result that succeeds.
abbrev value_of : Result ℕ → Option ℕ
value_of (ok n) = some n
value_of (err _) = none
value_of panic = none

abbrev names_of : Result (List Text) → List Text
names_of (ok names) = names
names_of (err _) = []
names_of panic = []

stored_is_cached :
    (key : Text) (id pool_id : ℕ) (t s' : Memory)
    → (write_memory (λ s. record s { cached_azp_pool_ids = insert s.cached_azp_pool_ids key id })
          >> return id)
        t
      ≡ (ok pool_id, s')
    → lookup s'.cached_azp_pool_ids key ≡ some pool_id
unfolding write_memory ◌>>=◌
stored_is_cached key id pool_id t s' e =
    ap (λ (x : Result ℕ × Memory). lookup x.1.cached_azp_pool_ids key) (sym e)
    ∙ lookup-insert t.cached_azp_pool_ids key id key
    ∙ ap (λ b. if b then some id else lookup t.cached_azp_pool_ids key) (text_eq_refl key)
    ∙ ap (λ (x : Result ℕ × Memory). value_of x.0) e

module _ (env : Env) where
  -- A request for the pool that succeeds leaves the identifier in the cache.
  fetched_is_cached :
      (azure_pat : Text) (spec : AutoScaledAgentSpec) (s s' : Memory) (pool_id : ℕ)
      → fetch_pool_id env azure_pat spec s ≡ (ok pool_id, s')
      → lookup s'.cached_azp_pool_ids (spec.organization_url ++ spec.pool_name) ≡ some pool_id
  unfolding fetch_pool_id
  fetched_is_cached azure_pat spec s s' pool_id e =
      let (body, t, e1, r1) = bind_inv _ _ s s' pool_id e in
      let (ids, t2, e2, r2) = bind_inv _ _ t s' pool_id r1 in
      let (id, t3, e3, r3) = bind_inv _ _ t2 s' pool_id r2 in
      stored_is_cached (spec.organization_url ++ spec.pool_name) id pool_id t3 s' r3

  cached_is_free :
      (azure_pat : Text) (spec : AutoScaledAgentSpec) (s : Memory) (pool_id : ℕ)
      → lookup s.cached_azp_pool_ids (spec.organization_url ++ spec.pool_name) ≡ some pool_id
      → get_pool_id_from_name env azure_pat spec s ≡ (ok pool_id, s)
  unfolding get_pool_id_from_name read_memory cached_or_fetch ◌>>=◌
  cached_is_free azure_pat spec s pool_id e = rw e refl

  -- Once the pool of an entry has been found, every later search for an organization and a pool whose
  -- names read the same one behind the other finds the same identifier, and calls nothing.
  pub get_pool_id_from_name_again :
      (azure_pat azure_pat' : Text) (spec spec' : AutoScaledAgentSpec) (s s' : Memory) (pool_id : ℕ)
      → get_pool_id_from_name env azure_pat spec s ≡ (ok pool_id, s')
      → spec.organization_url ++ spec.pool_name ≡ spec'.organization_url ++ spec'.pool_name
      → get_pool_id_from_name env azure_pat' spec' s' ≡ (ok pool_id, s')
  unfolding get_pool_id_from_name cached_or_fetch read_memory ◌>>=◌
  get_pool_id_from_name_again azure_pat azure_pat' spec spec' s s' pool_id e same =
      cached_is_free azure_pat' spec' s' pool_id (
        ap (lookup s'.cached_azp_pool_ids) (sym same)
        ∙ of (lookup s.cached_azp_pool_ids (spec.organization_url ++ spec.pool_name)) refl e)
    where
      of :
          (o : Option ℕ)
          → lookup s.cached_azp_pool_ids (spec.organization_url ++ spec.pool_name) ≡ o
          → cached_or_fetch env azure_pat spec o s ≡ (ok pool_id, s')
          → lookup s'.cached_azp_pool_ids (spec.organization_url ++ spec.pool_name) ≡ some pool_id
      of none at e = fetched_is_cached azure_pat spec s s' pool_id e
      of (some id) at e =
          ap
            (λ (x : Result ℕ × Memory).
              lookup x.1.cached_azp_pool_ids (spec.organization_url ++ spec.pool_name))
            (sym e)
          ∙ at
          ∙ ap (λ (x : Result ℕ × Memory). value_of x.0) e

module _ (env : Env) (pool_id : ℕ) (azure_pat cr_name : Text) (spec : AutoScaledAgentSpec) where
  -- What the two caches hold about the resource.
  abbrev pub Remembers : Text → List Text → Memory → Type 0
  Remembers hash names s =
      (lookup s.cached_custom_resource_hash cr_name ≡ some hash)
      × (get_or s.dummy_agent_names cr_name [] ≡ names)

  -- Both entries after they have been stored.
  stored_is_remembered :
      (hash : Text) (names' names : List Text) (t s' : Memory)
      → (write_memory (λ s. record s {
        dummy_agent_names = insert s.dummy_agent_names cr_name names';
        cached_custom_resource_hash = insert s.cached_custom_resource_hash cr_name hash;
      })
            >> return names')
          t
        ≡ (ok names, s')
      → Remembers hash names s'
  unfolding write_memory ◌>>=◌
  stored_is_remembered hash names' names t s' e = (
    ap (λ (x : Result (List Text) × Memory). lookup x.1.cached_custom_resource_hash cr_name) (sym e)
        ∙ lookup-insert t.cached_custom_resource_hash cr_name hash cr_name
        ∙ ap (λ b. if b then some hash else lookup t.cached_custom_resource_hash cr_name)
            (text_eq_refl cr_name),
    ap (λ (x : Result (List Text) × Memory). get_or x.1.dummy_agent_names cr_name []) (sym e)
        ∙ ap (λ (o : Option (List Text)). elim o [ none ↦ [] | some l ↦ l ])
            (lookup-insert t.dummy_agent_names cr_name names' cr_name
              ∙ ap (λ b. if b then some names' else lookup t.dummy_agent_names cr_name)
                  (text_eq_refl cr_name))
        ∙ ap (λ (x : Result (List Text) × Memory). names_of x.0) e,
  )

  registered_is_remembered :
      (hash : Text) (names : List Text) (s s' : Memory)
      → register_and_cache env pool_id azure_pat cr_name spec hash s ≡ (ok names, s')
      → Remembers hash names s'
  unfolding register_and_cache
  registered_is_remembered hash names s s' e =
      let (names', t, e1, r1) = bind_inv _ _ s s' names e in
      stored_is_remembered hash names' names t s' r1

  is_hash_lem : (o : Option Text) (hash : Text) → is_hash o hash ≡ true → o ≡ some hash
  is_hash_lem none hash e = cc
  is_hash_lem (some known) hash e = ap some ((text_eq_iff known hash).0 e)

  -- With the hash in the cache, its entry for the resource is the answer.
  remembered_is_free :
      (bytes : Text) (names : List Text) (s : Memory)
      → env.encode_spec s.log spec ≡ ok bytes
      → Remembers (env.sha256_hex bytes) names s
      → create_or_update_dummy_agents env pool_id azure_pat cr_name spec s
        ≡ (ok names, record s { log = Call.range ∷ s.log })
  unfolding create_or_update_dummy_agents compute_custom_resource_hash call read_memory ◌>>=◌
  remembered_is_free bytes names s e (known, listed) =
      rw (e, known, text_eq_refl (env.sha256_hex bytes))
        (ap (λ l. (ok l, record s { log = Call.range ∷ s.log })) listed)

  -- The last two thirds of the function, after the hash has been computed.
  with_hash :
      (bytes : Text) (s : Memory)
      → env.encode_spec s.log spec ≡ ok bytes
      → create_or_update_dummy_agents env pool_id azure_pat cr_name spec s
        ≡ (if is_hash (lookup s.cached_custom_resource_hash cr_name) (env.sha256_hex bytes)
              then return (get_or s.dummy_agent_names cr_name [])
              else register_and_cache env pool_id azure_pat cr_name spec (env.sha256_hex bytes))
            (record s { log = Call.range ∷ s.log })
  unfolding create_or_update_dummy_agents compute_custom_resource_hash call read_memory ◌>>=◌
  with_hash bytes s e = rw e refl

  -- Whatever the state was, a success leaves hash and names in the caches.
  succeeded_is_remembered :
      (bytes : Text) (names : List Text) (s s' : Memory)
      → env.encode_spec s.log spec ≡ ok bytes
      → create_or_update_dummy_agents env pool_id azure_pat cr_name spec s ≡ (ok names, s')
      → Remembers (env.sha256_hex bytes) names s'
  unfolding return
  succeeded_is_remembered bytes names s s' enc e =
      of (is_hash (lookup s.cached_custom_resource_hash cr_name) (env.sha256_hex bytes)) refl
        (sym (with_hash bytes s enc) ∙ e)
    where
      of :
          (b : Bool)
          → is_hash (lookup s.cached_custom_resource_hash cr_name) (env.sha256_hex bytes) ≡ b
          → (if b
                then return (get_or s.dummy_agent_names cr_name [])
                else register_and_cache env pool_id azure_pat cr_name spec (env.sha256_hex bytes))
              (record s { log = Call.range ∷ s.log })
            ≡ (ok names, s')
          → Remembers (env.sha256_hex bytes) names s'
      of true known e = (
        ap (λ (x : Result (List Text) × Memory). lookup x.1.cached_custom_resource_hash cr_name)
              (sym e)
            ∙ is_hash_lem (lookup s.cached_custom_resource_hash cr_name) (env.sha256_hex bytes)
                known,
        ap (λ (x : Result (List Text) × Memory). get_or x.1.dummy_agent_names cr_name []) (sym e)
            ∙ ap (λ (x : Result (List Text) × Memory). names_of x.0) e,
      )
      of false unknown e =
          registered_is_remembered (env.sha256_hex bytes) names
            (record s { log = Call.range ∷ s.log }) s' e

  -- Where the specification is encoded in one way, registering the dummy agents again after a
  -- success gives the same names and makes no request.
  pub create_or_update_dummy_agents_again :
      (bytes : Text) (names : List Text) (s s' : Memory)
      → ((log : Log) → env.encode_spec log spec ≡ ok bytes)
      → create_or_update_dummy_agents env pool_id azure_pat cr_name spec s ≡ (ok names, s')
      → create_or_update_dummy_agents env pool_id azure_pat cr_name spec s'
        ≡ (ok names, record s' { log = Call.range ∷ s'.log })
  create_or_update_dummy_agents_again bytes names s s' enc e =
      remembered_is_free bytes names s' (enc s'.log)
        (succeeded_is_remembered bytes names s s' (enc s.log) e)
