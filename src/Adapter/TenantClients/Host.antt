-- ===== src/Adapter/TenantClients/Host.antt =====
-- The calls for the client of a tenant leave the host cluster alone.
use vnode.Base.{String, Option, none, some}
use vnode.Base.Map.{lookup}
use vnode.Base.Errors.{Error, Result, ok, err}
use vnode.Base.Exec.{Call}
use vnode.Base.Exec.Keeps.{Keeps, Keeps-answer, Keeps-attempt, Keeps-bind}
use vnode.Model.Pool.{TenantRef}
use vnode.Ports.{KubeconfigResolver}
use vnode.Ports.Laws.{Seen, SameView, Leaves, Leaves-Keeps, Keeps-Leaves}
use vnode.Adapter.TenantClients.{
  TenantWorld, cache_key, on_world, invalidate, keep_client, failing_get, with_client, with_config,
  build_client, cached_or, get_client,
}

-- The host cluster is seen through the rest of the world of the clients.
abbrev pub on_host : {A C W : Type 0} → Seen A W → Seen A (TenantWorld C W)
on_host find s = find s.world

pub on_world-Keeps :
    {A C W X : Type 0} {find : Seen A W} {s : TenantWorld C W} (m : Call W X)
    → Keeps (SameView find s.world) m
    → Keeps (SameView (on_host find) s) (on_world m)
unfolding on_world
on_world-Keeps m k = record {
  at = λ t h.
      let after = k.at t.world (record { at = λ ns name. h.at ns name }) in
      record { at = λ ns name. after.at ns name };
}

module _ {A C W Config : Type 0} (find : Seen A W) (resolver : KubeconfigResolver W)
    (resolving : (ns name : String) → Leaves find (resolver.resolve ns name))
    (rest_config : String → Result Config) (factory : Config → Result C) where
  module _ (s : TenantWorld C W) where
    abbrev SameHost : TenantWorld C W → Type 0
    SameHost = SameView (on_host find) s

    invalidate-Keeps : (tenant : TenantRef) → Keeps SameHost (invalidate tenant)
    unfolding invalidate
    invalidate-Keeps tenant = record { at = λ t h. record { at = λ ns name. h.at ns name } }

    keep_client-Keeps : (tenant : TenantRef) (c : C) → Keeps SameHost (keep_client tenant c)
    unfolding keep_client
    keep_client-Keeps tenant c = record { at = λ t h. record { at = λ ns name. h.at ns name } }

    failing_get-Keeps : (tenant : TenantRef) (e : Error) → Keeps SameHost (failing_get tenant e)
    failing_get-Keeps tenant e = Keeps-bind _ _ (λ u. Keeps-answer _) (invalidate-Keeps tenant)

    with_client-Keeps :
        (tenant : TenantRef) (made : Result C) → Keeps SameHost (with_client tenant made)
    unfolding with_client
    with_client-Keeps tenant (err e) = failing_get-Keeps tenant _
    with_client-Keeps tenant (ok c) = keep_client-Keeps tenant c

    with_config-Keeps :
        (tenant : TenantRef) (config : Result Config)
        → Keeps SameHost (with_config resolver rest_config factory tenant config)
    unfolding with_config
    with_config-Keeps tenant (err e) = failing_get-Keeps tenant _
    with_config-Keeps tenant (ok cfg) = with_client-Keeps tenant (factory cfg)

    build_client-Keeps :
        (tenant : TenantRef) → Keeps SameHost (build_client resolver rest_config factory tenant)
    unfolding build_client
    build_client-Keeps tenant =
        Keeps-attempt _ _ _ (λ e. failing_get-Keeps tenant _)
          (λ kubeconfig. with_config-Keeps tenant (rest_config kubeconfig))
          (on_world-Keeps _ (Leaves-Keeps _ (resolving _ _)))

    cached_or-Keeps :
        (tenant : TenantRef) (found : Option C)
        → Keeps SameHost (cached_or resolver rest_config factory tenant found)
    unfolding cached_or
    cached_or-Keeps tenant none = build_client-Keeps tenant
    cached_or-Keeps tenant (some c) = Keeps-answer _

    pub get_client-Keeps :
        (tenant : TenantRef) → Keeps SameHost (get_client resolver rest_config factory tenant)
    unfolding get_client
    get_client-Keeps tenant = record {
      at = λ t h. (cached_or-Keeps tenant (lookup (cache_key tenant) t.clients)).at t h;
    }

  pub get_client-Leaves :
      (tenant : TenantRef) → Leaves (on_host find) (get_client resolver rest_config factory tenant)
  get_client-Leaves tenant = Keeps-Leaves _ (λ s. get_client-Keeps s tenant)
