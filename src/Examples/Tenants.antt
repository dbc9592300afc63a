-- ===== src/Examples/Tenants.antt =====
-- The repository of resources, the clients of tenants and the registrar at concrete data.
use vnode.Base.{ℕ, ◌≡◌, refl, String, ◌<>◌, false, none, []}
use vnode.Base.Decimal.{show_ℤ}
use vnode.Base.Errors.{Error, Result, ok, err, leaf, canceled, not_found}
use vnode.Base.Exec.{Call}
use vnode.Base.Int.{pos}
use vnode.Model.Pool.{TenantRef}
use vnode.Model.Node.{VNode}
use vnode.Kube.{Quantities, Clientset}
use vnode.Ports.{KubeconfigResolver, NodeRepository, NodeRegistrar}
use vnode.Ports.Laws.{Seen, RepositoryLaws}
use vnode.Service.Node.{new_node}
use vnode.Service.Node.Coherence.{AllCoherent}
use vnode.Adapter.NodeRepository.{new_cr, node_repository}
use vnode.Adapter.NodeRepository.Refines.{node_repository-RepositoryLaws}
use vnode.Adapter.TenantClients.{TenantWorld, cache_key, get_client}
use vnode.Adapter.TenantClients.Cache.{IsGenuine, Got, BuildsFitting}
use vnode.Adapter.TenantClients.Interleaving.{
  CacheReach, keeps, here as reached_here, next as reached_next, CacheReach-Got,
}
use vnode.Adapter.Registrar.{registrar}
use vnode.Adapter.Registrar.Cluster.{Elsewhere}
use vnode.Adapter.TenantClients.Host.{on_host}
use vnode.Adapter.HostCalls.{host_api}
use vnode.Examples.Pools.{pool_of}
use vnode.Adapter.TenantClients.{keep_client}
use vnode.Examples.Resources.{
  Resources, put, api, find, api-VNodeApiLaws, api-NeverCancelled, retry_on, retry_on-Retries,
}

node_repository-RepositoryLaws_example :
    RepositoryLaws (node_repository (api false) (retry_on 4)) find
node_repository-RepositoryLaws_example =
    node_repository-RepositoryLaws (api-VNodeApiLaws false) retry_on-Retries api-NeverCancelled

abbrev first : VNode
first = new_node (pool_of 1) 0

abbrev pub nothing : Resources
nothing ns name = none

abbrev one : Resources
one = put (new_cr first) nothing

abbrev cancelled : Error
cancelled = leaf canceled "context canceled"

-- A client is the key of its tenant, and a kubeconfig names it.
abbrev resolver : KubeconfigResolver Resources
resolver = record { resolve = λ ns name w. (ok (ns <> ("/" <> name)), w) }

abbrev rest_config : String → Result String
rest_config text = ok text

abbrev factory : String → Result String
factory cfg = ok cfg

abbrev Fits : String → String → Type 0
Fits key c = c ≡ key

abbrev no_clients : TenantWorld String Resources
no_clients = record { clients = []; world = nothing }

IsGenuine-no_clients : IsGenuine Fits no_clients
IsGenuine-no_clients = record { at = λ key c h. cc }

factory-BuildsFitting : BuildsFitting Fits resolver rest_config factory
unfolding cache_key
factory-BuildsFitting = record {
  at = λ tenant w kubeconfig cfg c resolved configured made. cc (resolved, configured, made);
}

abbrev tenant : TenantRef
tenant = (pool_of 1).tenant_ref

abbrev other_tenant : TenantRef
other_tenant = record tenant { kubeconfig_secret = "other" }

-- Two calls for one tenant build a client each, with one for another tenant in between.
abbrev both_kept : TenantWorld String Resources
both_kept =
    (keep_client tenant "ns/kc"
      (keep_client other_tenant "ns/other" (keep_client tenant "ns/kc" no_clients).1).1).1

both_kept-Reached : CacheReach resolver rest_config factory no_clients both_kept
both_kept-Reached =
    reached_next
      (reached_next
        (reached_next reached_here
          (keeps tenant nothing "ns/kc" "ns/kc" "ns/kc" refl refl refl refl))
        (keeps other_tenant nothing "ns/other" "ns/other" "ns/other" refl refl refl refl))
      (keeps tenant nothing "ns/kc" "ns/kc" "ns/kc" refl refl refl refl)

CacheReach-Got_example :
    Got Fits other_tenant
      (get_client resolver rest_config factory other_tenant both_kept).0
      (get_client resolver rest_config factory other_tenant both_kept).1
CacheReach-Got_example =
    CacheReach-Got resolver rest_config factory Fits factory-BuildsFitting IsGenuine-no_clients
      both_kept-Reached other_tenant

abbrev pub quantities : Quantities String
quantities = record {
  must_parse = λ t. t;
  string = λ q. q;
  value = λ q. pos 0;
  new_quantity = show_ℤ;
}

-- A tenant's cluster that takes every write and holds nothing to be read.
abbrev pub cluster : {W : Type 0} → String → Clientset String W
cluster c = record {
  list_pods = λ w. (ok [], w);
  get_pod = λ ns name w. (err (leaf not_found name), w);
  update_pod_status = λ ns p w. (ok tt, w);
  get_config_map = λ ns name w. (err (leaf not_found name), w);
  get_secret = λ ns name w. (err (leaf not_found name), w);
  get_namespace = λ name w. (err (leaf not_found name), w);
  create_namespace = λ name w. (ok tt, w);
  get_lease = λ ns name w. (err (leaf not_found name), w);
  create_lease = λ l w. (ok tt, w);
  update_lease = λ ns l w. (ok tt, w);
  delete_lease = λ ns name w. (ok tt, w);
  get_node = λ name w. (err (leaf not_found name), w);
  create_node = λ n w. (ok tt, w);
  update_node = λ n w. (ok tt, w);
  update_node_status = λ n w. (ok tt, w);
  delete_node = λ name w. (ok tt, w);
}

pub cluster-Elsewhere : {A W : Type 0} {find : Seen A W} (c : String) → Elsewhere find (cluster c)
cluster-Elsewhere c = record {
  get_namespace = λ name w ns k. refl;
  create_namespace = λ name w ns k. refl;
  get_lease = λ j name w ns k. refl;
  create_lease = λ lease w ns k. refl;
  update_lease = λ j lease w ns k. refl;
  delete_lease = λ j name w ns k. refl;
  get_node = λ name w ns k. refl;
  create_node = λ node w ns k. refl;
  update_node = λ node w ns k. refl;
  update_node_status = λ node w ns k. refl;
  delete_node = λ name w ns k. refl;
}

abbrev pub noon : {W : Type 0} → Call W ℕ
noon w = (43200, w)

AllCoherent-no_clients : AllCoherent (on_host find) no_clients
AllCoherent-no_clients = record { at = λ ns name n h. cc }

abbrev nodes_here : NodeRepository (TenantWorld String Resources)
nodes_here = node_repository (host_api (api false)) (retry_on 4)

abbrev registrar_here : NodeRegistrar (TenantWorld String Resources)
registrar_here = registrar quantities "v1" noon (retry_on 4) cluster resolver rest_config factory
