-- ===== src/Adapter/HostCalls.antt =====
-- The calls on the host cluster, in a world that holds the clients of tenants too.
use vnode.Kube.{HostApi}
use vnode.Api.{VNodeApi, PoolApi}
use vnode.Adapter.TenantClients.{TenantWorld, on_world}
use vnode.Adapter.PodSync.{Recorder}

abbrev pub host_api : {C W : Type 0} → VNodeApi W → VNodeApi (TenantWorld C W)
host_api api = record {
  get = λ ns name. on_world (api.get ns name);
  create = λ cr. on_world (api.create cr);
  update = λ cr. on_world (api.update cr);
  update_status = λ cr. on_world (api.update_status cr);
  delete = λ ns name. on_world (api.delete ns name);
  list = λ ns labels. on_world (api.list ns labels);
}

abbrev pub pools_on_host : {C W : Type 0} → PoolApi W → PoolApi (TenantWorld C W)
pools_on_host api = record {
  get = λ ns name. on_world (api.get ns name);
  update = λ cr. on_world (api.update cr);
  update_status = λ cr. on_world (api.update_status cr);
  patch_status = λ base cr. on_world (api.patch_status base cr);
  list = on_world api.list;
}

abbrev pub pods_on_host : {Q C W : Type 0} → HostApi Q W → HostApi Q (TenantWorld C W)
pods_on_host api = record {
  create_pod = λ p. on_world (api.create_pod p);
  get_pod = λ ns name. on_world (api.get_pod ns name);
  update_pod = λ p. on_world (api.update_pod p);
  delete_pod = λ ns name. on_world (api.delete_pod ns name);
  list_pods = λ ns labels. on_world (api.list_pods ns labels);
  get_config_map = λ ns name. on_world (api.get_config_map ns name);
  create_config_map = λ ns name cm. on_world (api.create_config_map ns name cm);
  update_config_map = λ ns name cm. on_world (api.update_config_map ns name cm);
  get_secret = λ ns name. on_world (api.get_secret ns name);
  create_secret = λ ns name secret. on_world (api.create_secret ns name secret);
  update_secret = λ ns name secret. on_world (api.update_secret ns name secret);
}

abbrev pub events_on_host : {C W : Type 0} → Recorder W → Recorder (TenantWorld C W)
events_on_host events = record {
  eventf = λ cr type reason action note. on_world (events.eventf cr type reason action note);
}
