-- ===== src/Adapter/TenantClients/Cache.antt =====
-- What the kept clients are clients of.
use mathlib.Core.Path.{subst}
use vnode.Base.{
  ap, ◌≡◌, refl, sym, ◌∙◌, String, Bool-cases, inl, inr, Option, none, some, ◌==◌, if◌then◌else◌,
  arith, eq_iff, eq_refl,
}
use vnode.Base.Errors.{Error, Result, ok, err}
use vnode.Base.Exec.{answer, ◌>>=◌}
use vnode.Base.Exec.Outcome.{outcome_attempt}
use vnode.Base.Map.{lookup, lookup-insert, lookup-erase}
use vnode.Model.Pool.{TenantRef}
use vnode.Ports.{KubeconfigResolver}
use vnode.Adapter.TenantClients.{
  TenantWorld, cache_key, on_world, invalidate, keep_client, failing_get, with_client, with_config,
  build_client, cached_or, get_client,
}

module _ {C W : Type 0} (Fits : String → C → Type 0) where
  -- Every client that is kept fits the key that it is kept under.
  pub record IsGenuine (s : TenantWorld C W) : Type 0 where
    pub at : (key : String) (c : C) → lookup key s.clients ≡ some c → Fits key c

  -- What is said of the outcome of `Get`.
  pub record Got (tenant : TenantRef) (r : Result C) (t : TenantWorld C W) : Type 0 where
    pub genuine : IsGenuine t
    pub fits : (c : C) → r ≡ ok c → Fits (cache_key tenant) c
    pub kept : (c : C) → r ≡ ok c → lookup (cache_key tenant) t.clients ≡ some c

  abbrev pub Gets : TenantRef → Result C × TenantWorld C W → Type 0
  Gets tenant (r, t) = Got tenant r t

  pub keep_client-Got :
      (tenant : TenantRef) (c : C) (s : TenantWorld C W)
      → IsGenuine s
      → Fits (cache_key tenant) c
      → Gets tenant (keep_client tenant c s)
  unfolding keep_client
  keep_client-Got tenant c s g f = record {
    genuine = record {
      at = λ key d h.
          let new : (if key == cache_key tenant then some c else lookup key s.clients) ≡ some d =
            sym (lookup-insert (cache_key tenant) key c s.clients) ∙ h in
          elim (Bool-cases (key == cache_key tenant)) [
            | inl here ↦
                let same : c ≡ d = ground (arith, new, here) in
                subst (Fits key) same
                  (subst (λ k. Fits k c) (sym ((eq_iff key (cache_key tenant)).0 here)) f)
            | inr other ↦ g.at key d (ground (arith, new, other))
          ];
    };
    fits = λ d h. let same : c ≡ d = cc (h) in subst (Fits (cache_key tenant)) same f;
    kept = λ d h.
        let same : c ≡ d = cc (h) in
        lookup-insert (cache_key tenant) (cache_key tenant) c s.clients
        ∙ rw (eq_refl (cache_key tenant)) (ap some same);
  }

  pub invalidate-IsGenuine :
      (tenant : TenantRef) (s : TenantWorld C W) → IsGenuine s → IsGenuine (invalidate tenant s).1
  unfolding invalidate
  invalidate-IsGenuine tenant s g = record {
    at = λ key d h.
        let old : (if key == cache_key tenant then none else lookup key s.clients) ≡ some d =
          sym (lookup-erase (cache_key tenant) key s.clients) ∙ h in
        elim (Bool-cases (key == cache_key tenant)) [
          | inl here ↦ ground (arith, old, here)
          | inr other ↦ g.at key d (ground (arith, old, other))
        ];
  }

  pub failing_get-Got :
      (tenant : TenantRef) (e : Error) (s : TenantWorld C W)
      → IsGenuine s
      → Gets tenant (failing_get tenant e s)
  unfolding invalidate ◌>>=◌ answer
  failing_get-Got tenant e s g = record {
    genuine = record { at = (invalidate-IsGenuine tenant s g).at };
    fits = λ d h. cc;
    kept = λ d h. cc;
  }

  module _ {Config : Type 0} (resolver : KubeconfigResolver W)
      (rest_config : String → Result Config) (factory : Config → Result C) where
    -- A client that is built from the kubeconfig of a tenant fits the tenant's key.
    pub record BuildsFitting : Type 0 where
      pub at :
          (tenant : TenantRef) (w : W) (kubeconfig : String) (cfg : Config) (c : C)
          → (resolver.resolve tenant.vcluster_namespace tenant.kubeconfig_secret w).0
            ≡ ok kubeconfig
          → rest_config kubeconfig ≡ ok cfg
          → factory cfg ≡ ok c
          → Fits (cache_key tenant) c

    with_factory-Got :
        (tenant : TenantRef) (made : Result C) (s : TenantWorld C W)
        → IsGenuine s
        → ((c : C) → made ≡ ok c → Fits (cache_key tenant) c)
        → Gets tenant (with_client tenant made s)
    unfolding with_client
    with_factory-Got tenant (err e) s g f = failing_get-Got tenant _ s g
    with_factory-Got tenant (ok c) s g f = keep_client-Got tenant c s g (f c refl)

    with_config-Got :
        (tenant : TenantRef) (config : Result Config) (s : TenantWorld C W)
        → IsGenuine s
        → ((cfg : Config) (c : C)
            → config ≡ ok cfg
            → factory cfg ≡ ok c
            → Fits (cache_key tenant) c)
        → Gets tenant (with_config resolver rest_config factory tenant config s)
    unfolding with_config
    with_config-Got tenant (err e) s g f = failing_get-Got tenant _ s g
    with_config-Got tenant (ok cfg) s g f =
        with_factory-Got tenant (factory cfg) s g (λ c h. f cfg c refl h)

    module _ (builds : BuildsFitting) where
      build_client-Got :
          (tenant : TenantRef) (s : TenantWorld C W)
          → IsGenuine s
          → Gets tenant (build_client resolver rest_config factory tenant s)
      unfolding build_client on_world
      build_client-Got tenant s g =
          outcome_attempt (Gets tenant) _ _ _ s
            (λ kubeconfig found.
              with_config-Got tenant (rest_config kubeconfig) _ (record { at = g.at })
                (λ cfg c configured made.
                  builds.at tenant s.world kubeconfig cfg c found configured made))
            (λ e _. failing_get-Got tenant _ _ (record { at = g.at }))

      cached_or-Got :
          (tenant : TenantRef) (found : Option C) (s : TenantWorld C W)
          → IsGenuine s
          → lookup (cache_key tenant) s.clients ≡ found
          → Gets tenant (cached_or resolver rest_config factory tenant found s)
      unfolding cached_or answer
      cached_or-Got tenant none s g h = build_client-Got tenant s g
      cached_or-Got tenant (some c) s g h = record {
        genuine = g;
        fits = λ d e.
            let same : c ≡ d = cc (e) in
            subst (Fits (cache_key tenant)) same (g.at (cache_key tenant) c h);
        kept = λ d e. let same : c ≡ d = cc (e) in h ∙ ap some same;
      }

      -- Let a client that is built from the kubeconfig of a tenant fit the key of the tenant. From a
      -- world where each client that is kept fits its key, `Get` leads to such a world, whether it
      -- fails or not; and a client that it returns fits the tenant's key and is kept under it.
      pub get_client-Got :
          (tenant : TenantRef) (s : TenantWorld C W)
          → IsGenuine s
          → Gets tenant (get_client resolver rest_config factory tenant s)
      unfolding get_client
      get_client-Got tenant s g = cached_or-Got tenant _ s g refl

module _ {C W Config : Type 0} (resolver : KubeconfigResolver W)
    (rest_config : String → Result Config) (factory : Config → Result C) where
  -- A client that is returned is kept.
  pub get_client_keeps :
      (tenant : TenantRef) (s : TenantWorld C W) (c : C)
      → (get_client resolver rest_config factory tenant s).0 ≡ ok c
      → lookup (cache_key tenant) (get_client resolver rest_config factory tenant s).1.clients
        ≡ some c
  get_client_keeps tenant s c got =
      let any : IsGenuine (λ key d. Unit {0}) s = record { at = λ key d h. tt } in
      (get_client-Got (λ key d. Unit {0}) resolver rest_config factory
          (record { at = λ t w k cfg d h i j. tt }) tenant s any).kept
        c got
