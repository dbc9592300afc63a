-- ===== src/Adapter/TenantClients/Interleaving.antt =====
-- Calls of `Get` that run at the same time. The lock is held for one read or one write of the map, so that the
-- steps of several calls may come in any order.
use mathlib.Core.Path.{subst}
use vnode.Base.{◌≡◌, refl, sym, String, Option, none, some}
use vnode.Base.Errors.{Error, Result, ok, err}
use vnode.Base.Exec.{answer, ◌>>=◌}
use vnode.Base.Exec.Outcome.{outcome_attempt}
use vnode.Base.Map.{lookup}
use vnode.Model.Pool.{TenantRef}
use vnode.Ports.{KubeconfigResolver}
use vnode.Adapter.TenantClients.{
  TenantWorld, cache_key, on_world, invalidate, keep_client, failing_get, with_client, with_config,
  build_client, cached_or, get_client,
}
use vnode.Adapter.TenantClients.Cache.{
  IsGenuine, Got, BuildsFitting, keep_client-Got, invalidate-IsGenuine, get_client-Got,
}

module _ {C W Config : Type 0} (resolver : KubeconfigResolver W)
    (rest_config : String → Result Config) (factory : Config → Result C) where
  -- A step of some call of `Get`: it keeps a client that it has built, from a kubeconfig that it resolved in
  -- some earlier world, or drops the client of its tenant; or a step of anything else, which leaves
  -- the clients alone.
  pub data CacheStep (s t : TenantWorld C W) : Type 0 where
    keeps :
        (tenant : TenantRef) (w : W) (kubeconfig : String) (cfg : Config) (c : C)
        → (resolver.resolve tenant.vcluster_namespace tenant.kubeconfig_secret w).0 ≡ ok kubeconfig
        → rest_config kubeconfig ≡ ok cfg
        → factory cfg ≡ ok c
        → t ≡ (keep_client tenant c s).1
        → CacheStep s t
    drops : (tenant : TenantRef) → t ≡ (invalidate tenant s).1 → CacheStep s t
    elsewhere : (w : W) → t ≡ record s { world = w } → CacheStep s t

  -- The worlds that steps of any number of calls lead to, in any order.
  pub data CacheReach (s : TenantWorld C W) : TenantWorld C W → Type 0 where
    here : CacheReach s s
    next : {t u : TenantWorld C W} → CacheReach s t → CacheStep t u → CacheReach s u

  module _ (s : TenantWorld C W) (tenant : TenantRef) where
    abbrev Reached : Result C × TenantWorld C W → Type 0
    Reached (r, t) = CacheReach s t

    failing_get-Reached :
        (e : Error) (t : TenantWorld C W) → CacheReach s t → Reached (failing_get tenant e t)
    unfolding ◌>>=◌ answer invalidate
    failing_get-Reached e t r = next r (drops tenant refl)

    with_client-Reached :
        (w : W) (kubeconfig : String) (cfg : Config) (made : Result C) (t : TenantWorld C W)
        → (resolver.resolve tenant.vcluster_namespace tenant.kubeconfig_secret w).0 ≡ ok kubeconfig
        → rest_config kubeconfig ≡ ok cfg
        → factory cfg ≡ made
        → CacheReach s t
        → Reached (with_client tenant made t)
    unfolding with_client
    with_client-Reached w kubeconfig cfg (err e) t found configured made r =
        failing_get-Reached _ t r
    with_client-Reached w kubeconfig cfg (ok c) t found configured made r =
        next r (keeps tenant w kubeconfig cfg c found configured made refl)

    with_config-Reached :
        (w : W) (kubeconfig : String) (config : Result Config) (t : TenantWorld C W)
        → (resolver.resolve tenant.vcluster_namespace tenant.kubeconfig_secret w).0 ≡ ok kubeconfig
        → rest_config kubeconfig ≡ config
        → CacheReach s t
        → Reached (with_config resolver rest_config factory tenant config t)
    unfolding with_config
    with_config-Reached w kubeconfig (err e) t found configured r = failing_get-Reached _ t r
    with_config-Reached w kubeconfig (ok cfg) t found configured r =
        with_client-Reached w kubeconfig cfg (factory cfg) t found configured refl r

    build_client-Reached : Reached (build_client resolver rest_config factory tenant s)
    unfolding build_client on_world
    build_client-Reached =
        let asked : CacheReach s
            (on_world (resolver.resolve tenant.vcluster_namespace tenant.kubeconfig_secret) s).1 =
          next here (elsewhere _ refl) in
        outcome_attempt Reached _ _ _ s
          (λ kubeconfig found. with_config-Reached s.world kubeconfig _ _ found refl asked)
          (λ e _. failing_get-Reached _ _ asked)

    cached_or-Reached :
        (found : Option C) → Reached (cached_or resolver rest_config factory tenant found s)
    unfolding cached_or answer
    cached_or-Reached none = build_client-Reached
    cached_or-Reached (some c) = here

    -- A call of `Get` that runs alone is a sequence of such steps.
    pub get_client-Reached : CacheReach s (get_client resolver rest_config factory tenant s).1
    unfolding get_client
    get_client-Reached = cached_or-Reached (lookup (cache_key tenant) s.clients)

  module _ (Fits : String → C → Type 0)
      (builds : BuildsFitting Fits resolver rest_config factory) where
    CacheStep-IsGenuine :
        {s t : TenantWorld C W} → CacheStep s t → IsGenuine Fits s → IsGenuine Fits t
    CacheStep-IsGenuine {s} (keeps tenant w kubeconfig cfg c found configured made e) g =
        subst (IsGenuine Fits) (sym e)
          (keep_client-Got Fits tenant c s g
            (builds.at tenant w kubeconfig cfg c found configured made)).genuine
    CacheStep-IsGenuine {s} (drops tenant e) g =
        subst (IsGenuine Fits) (sym e) (invalidate-IsGenuine Fits tenant s g)
    CacheStep-IsGenuine {s} (elsewhere w e) g =
        subst (IsGenuine Fits) (sym e) (record { at = g.at })

    CacheReach-IsGenuine :
        {s t : TenantWorld C W} → IsGenuine Fits s → CacheReach s t → IsGenuine Fits t
    CacheReach-IsGenuine g here = g
    CacheReach-IsGenuine g (next r step) = CacheStep-IsGenuine step (CacheReach-IsGenuine g r)

    -- Let a client that is built from the kubeconfig of a tenant fit the key of the tenant, and start from a
    -- world where each client that is kept fits its key. After the steps of any calls of `Get`, in any
    -- order and at the same time, a further call leads to such a world again, whether it fails or not; and
    -- a client that it returns fits the key of its tenant and is kept under it.
    pub CacheReach-Got :
        {s t : TenantWorld C W}
        → IsGenuine Fits s
        → CacheReach s t
        → (tenant : TenantRef)
        → Got Fits tenant
            (get_client resolver rest_config factory tenant t).0
            (get_client resolver rest_config factory tenant t).1
    CacheReach-Got {s} {t} g r tenant =
        get_client-Got Fits resolver rest_config factory builds tenant t (CacheReach-IsGenuine g r)
