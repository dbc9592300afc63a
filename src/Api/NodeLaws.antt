-- ===== src/Api/NodeLaws.antt =====
-- What the API server promises of `VNode`s.
use vnode.Base.{◌≡◌, ◌⊎◌, String, Option, none, some, false}
use vnode.Base.Errors.{Error, ok, err, is_context_error}
use vnode.Base.Map.{Map}
use vnode.Model.Node.{VNode}
use vnode.Ports.Laws.{View, IsBlank}
use vnode.Api.{VNodeCr, VNodeApi, conditions_of}

-- The status that is found is that of the resource.
pub record Shows (cr : VNodeCr) (found : Option VNode) : Type 0 where
  pub kept : VNode
  pub is_kept : found ≡ some kept
  pub phase : kept.phase ≡ cr.phase
  pub conditions : kept.conditions ≡ conditions_of cr.conditions

-- Documented behaviour of the API server, where the view shows of a `VNode` its key and its status. A read
-- returns a resource of the key asked for, which may be out of date. A resource is created without a
-- status, as the status is a subresource. An update leaves the status as it is. A write that fails may
-- have been made.
pub record VNodeApiLaws {S : Type 0} (api : VNodeApi S) (find : View S) : Type 0 where
  pub get_keeps :
      (j k : String) (s : S) (ns name : String) → find (api.get j k s).1 ns name ≡ find s ns name
  pub get_named :
      (ns name : String) (s : S) (cr : VNodeCr)
      → (api.get ns name s).0 ≡ ok cr
      → (cr.namespace ≡ ns) × (cr.name ≡ name)
  pub create_changes :
      (cr : VNodeCr) (s : S) (ns name : String)
      → (find (api.create cr s).1 ns name ≡ find s ns name)
        ⊎ ((ns ≡ cr.namespace) × (name ≡ cr.name) × IsBlank (find (api.create cr s).1 ns name))
  pub create_named :
      (cr made : VNodeCr) (s : S)
      → (api.create cr s).0 ≡ ok made
      → (made.namespace ≡ cr.namespace) × (made.name ≡ cr.name)
  pub update_keeps :
      (cr : VNodeCr) (s : S) (ns name : String) → find (api.update cr s).1 ns name ≡ find s ns name
  pub status_changes :
      (cr : VNodeCr) (s : S) (ns name : String)
      → (find (api.update_status cr s).1 ns name ≡ find s ns name)
        ⊎ ((ns ≡ cr.namespace)
            × (name ≡ cr.name)
            × Shows cr (find (api.update_status cr s).1 ns name))
  pub status_ok :
      (cr : VNodeCr) (s : S)
      → (api.update_status cr s).0 ≡ ok tt
      → Shows cr (find (api.update_status cr s).1 cr.namespace cr.name)
  pub delete_changes :
      (j k : String) (s : S) (ns name : String)
      → (find (api.delete j k s).1 ns name ≡ find s ns name)
        ⊎ (find (api.delete j k s).1 ns name ≡ none)
  pub delete_ok :
      (ns name : String) (s : S)
      → (api.delete ns name s).0 ≡ ok tt
      → find (api.delete ns name s).1 ns name ≡ none
  pub list_keeps :
      (j : String) (labels : Map String) (s : S) (ns name : String)
      → find (api.list j labels s).1 ns name ≡ find s ns name

-- No context is cancelled or runs out of time: no call that a save makes fails for one.
pub record NeverCancelled {S : Type 0} (api : VNodeApi S) : Type 0 where
  pub get :
      (ns name : String) (s : S) (e : Error)
      → (api.get ns name s).0 ≡ err e
      → is_context_error e ≡ false
  pub update :
      (cr : VNodeCr) (s : S) (e : Error) → (api.update cr s).0 ≡ err e → is_context_error e ≡ false
  pub update_status :
      (cr : VNodeCr) (s : S) (e : Error)
      → (api.update_status cr s).0 ≡ err e
      → is_context_error e ≡ false
