-- ===== src/Adapter/Registrar/Presence.antt =====
-- What the cluster of a tenant holds after the calls of the registrar.
pub mod Register
pub mod Deregister
use mathlib.Core.Path.{subst}
use vnode.Base.{◌≡◌, refl, sym, ap, ◌∙◌, String, ◌<>◌, ℕ, Option, some, All, Any}
use vnode.Base.Errors.{Error, Result, ok, err, is_not_found}
use vnode.Base.Exec.{Call, Exec, Action, answer, pure, raise, attempt, wrapping, ◌>>=◌}
use vnode.Base.Exec.Keeps.{
  Keeps, Keeps-answer, Keeps-test, Keeps-attempt, Keeps-bind, Keeps-wrapping,
}
use vnode.Base.Exec.Outcome.{outcome_attempt, outcome_test, wrapping_ok, done_wrapping}
use vnode.Base.Int.{pos}
use vnode.Model.Node.{VNode}
use vnode.Kube.{Quantities, CoreNode, Lease, Clientset}
use vnode.Api.Retry.{Retries, retry-Keeps, outcome_retry}
use vnode.Adapter.Registrar.{
  lease_namespace, node_labels, node_annotations, map_node_taints, build_node_conditions,
  build_resources, new_core_node, relabelled, with_node_status, held_lease, new_lease, upsert_node,
  write_node_status, upsert_lease_at, upsert_lease, sync_node,
}

-- The node that is found has the labels, the annotations and the taints of `m`, and may have more taints: the
-- default admission of the API server adds that of a node that is not ready. Or it has the status of `m`.
pub record HasMetadata {Q : Type 0} (m : CoreNode Q) (found : Option (CoreNode Q)) : Type 0 where
  pub kept : CoreNode Q
  pub is_kept : found ≡ some kept
  pub labels : kept.labels ≡ m.labels
  pub annotations : kept.annotations ≡ m.annotations
  pub taints : All (λ t. Any (λ u. u ≡ t) kept.taints) m.taints

pub record HasStatus {Q : Type 0} (m : CoreNode Q) (found : Option (CoreNode Q)) : Type 0 where
  pub kept : CoreNode Q
  pub is_kept : found ≡ some kept
  pub capacity : kept.capacity ≡ m.capacity
  pub allocatable : kept.allocatable ≡ m.allocatable
  pub conditions : kept.conditions ≡ m.conditions

-- Documented behaviour of the API server of a tenant, seen through the nodes and the leases that it holds. A
-- read is of what is held. A status is written apart from all else. What failed may have been made,
-- but a write of the status never touches the metadata.
pub record ClusterLaws {Q W : Type 0} (c : Clientset Q W)
    (node_at : W → String → Option (CoreNode Q)) (lease_at : W → String → String → Option Lease)
    : Type 0 where
  pub get_node_keeps :
      (name : String) (w : W) (k : String) → node_at (c.get_node name w).1 k ≡ node_at w k
  pub get_node_named :
      (name : String) (w : W) (n : CoreNode Q) → (c.get_node name w).0 ≡ ok n → n.name ≡ name
  pub create_node_ok :
      (n : CoreNode Q) (w : W)
      → (c.create_node n w).0 ≡ ok tt
      → HasMetadata n (node_at (c.create_node n w).1 n.name)
  pub update_node_ok :
      (n : CoreNode Q) (w : W)
      → (c.update_node n w).0 ≡ ok tt
      → HasMetadata n (node_at (c.update_node n w).1 n.name)
  pub status_keeps :
      (m n : CoreNode Q) (w : W) (k : String)
      → HasMetadata m (node_at w k)
      → HasMetadata m (node_at (c.update_node_status n w).1 k)
  pub status_ok :
      (n : CoreNode Q) (w : W)
      → (c.update_node_status n w).0 ≡ ok tt
      → HasStatus n (node_at (c.update_node_status n w).1 n.name)
  pub get_lease_keeps :
      (ns name : String) (w : W) (k : String) → node_at (c.get_lease ns name w).1 k ≡ node_at w k
  pub get_lease_named :
      (ns name : String) (w : W) (l : Lease)
      → (c.get_lease ns name w).0 ≡ ok l
      → (l.namespace ≡ ns) × (l.name ≡ name)
  pub create_lease_keeps :
      (l : Lease) (w : W) (k : String) → node_at (c.create_lease l w).1 k ≡ node_at w k
  pub create_lease_ok :
      (l : Lease) (w : W)
      → (c.create_lease l w).0 ≡ ok tt
      → lease_at (c.create_lease l w).1 l.namespace l.name ≡ some l
  pub update_lease_keeps :
      (ns : String) (l : Lease) (w : W) (k : String)
      → node_at (c.update_lease ns l w).1 k ≡ node_at w k
  pub update_lease_ok :
      (ns : String) (l : Lease) (w : W)
      → l.namespace ≡ ns
      → (c.update_lease ns l w).0 ≡ ok tt
      → lease_at (c.update_lease ns l w).1 ns l.name ≡ some l

-- The status of a virtual node, with its conditions as of some time.
pub record ShowsStatus {Q : Type 0} (quantities : Quantities Q) (node : VNode)
    (found : Option (CoreNode Q)) : Type 0 where
  pub kept : CoreNode Q
  pub is_kept : found ≡ some kept
  pub time : ℕ
  pub capacity : kept.capacity ≡ build_resources quantities node.capacity
  pub allocatable : kept.allocatable ≡ build_resources quantities node.allocatable
  pub conditions : kept.conditions ≡ build_node_conditions time node.conditions

-- The node is alive for 40 seconds from some time.
pub record IsLeased (node : VNode) (found : Option Lease) : Type 0 where
  pub lease : Lease
  pub is_lease : found ≡ some lease
  pub holder : lease.holder_identity ≡ some node.name
  pub duration : lease.lease_duration_seconds ≡ some (pos 40)

-- The node, with its metadata and its status, and its lease.
pub record IsPresent {Q : Type 0} (quantities : Quantities Q)
    (node_at : String → Option (CoreNode Q)) (lease_at : String → String → Option Lease)
    (node : VNode) : Type 0 where
  pub described : HasMetadata (new_core_node quantities node) (node_at node.name)
  pub shown : ShowsStatus quantities node (node_at node.name)
  pub leased : IsLeased node (lease_at lease_namespace node.name)

module _ {Q W : Type 0} (quantities : Quantities Q) (version : String) (now : Call W ℕ)
    {retry : Action W → Action W} (retries : Retries retry) (c : Clientset Q W)
    {node_at : W → String → Option (CoreNode Q)} {lease_at : W → String → String → Option Lease}
    (laws : ClusterLaws c node_at lease_at)
    (clock : (w : W) (k : String) → node_at (now w).1 k ≡ node_at w k) (node : VNode) where
  abbrev Present : W → Type 0
  Present t = IsPresent quantities (node_at t) (lease_at t) node

  abbrev Described : Option (CoreNode Q) → Type 0
  Described found = HasMetadata (new_core_node quantities node) found

  pub upsert_node-Described :
      (w : W)
      → (upsert_node quantities version now retry c node w).0 ≡ ok tt
      → Described (node_at (upsert_node quantities version now retry c node w).1 node.name)
  unfolding upsert_node new_core_node relabelled answer
  upsert_node-Described w =
      let There : W → Type 0 = λ t. Described (node_at t node.name) in
      let Done : Result (Unit {0}) × W → Type 0 = λ (r, t). r ≡ ok tt → There t in
      outcome_attempt Done _ _ _ w
        (λ current got. done_wrapping There _ _ _ (λ done.
          let put = laws.update_node_ok (relabelled quantities current node) _ done in
          let after =
            (c.update_node (relabelled quantities current node) (c.get_node node.name w).1).1 in
          subst (λ k. Described (node_at after k)) (laws.get_node_named node.name w current got)
            (record {
              kept = put.kept;
              is_kept = put.is_kept;
              labels = put.labels;
              annotations = put.annotations;
              taints = put.taints;
            })))
        (λ e _.
          outcome_test Done (is_not_found e) _ _ _
            (λ _.
              done_wrapping There _ _ _
                (laws.create_node_ok (new_core_node quantities node) (c.get_node node.name w).1))
            (λ _ done. cc (done)))

  -- A call that changes nothing of the nodes.
  leaving_nodes :
      {X : Type 0} (P : Option (CoreNode Q) → Type 0) (m : Call W X)
      → ((w : W) (k : String) → node_at (m w).1 k ≡ node_at w k)
      → Keeps (λ w. P (node_at w node.name)) m
  leaving_nodes P m same = record { at = λ w h. subst P (sym (same w node.name)) h }

  write_node_status-Described :
      Keeps
        (λ w. Described (node_at w node.name))
        (write_node_status quantities version now retry c node)
  unfolding write_node_status
  write_node_status-Described =
      Keeps-bind _ _
        (λ current. record {
          at = λ w h.
              laws.status_keeps _ _ (now w).1 node.name
                ((leaving_nodes Described now clock).at w h);
        })
        (Keeps-wrapping _ _ (leaving_nodes Described _ (laws.get_node_keeps node.name)))

  write_node_status-ShowsStatus :
      (w : W)
      → (write_node_status quantities version now retry c node w).0 ≡ ok tt
      → ShowsStatus quantities node
          (node_at (write_node_status quantities version now retry c node w).1 node.name)
  unfolding write_node_status with_node_status ◌>>=◌ answer
  write_node_status-ShowsStatus w =
      let Done : Result (Unit {0}) × W → Type 0 =
        λ (r, t). r ≡ ok tt → ShowsStatus quantities node (node_at t node.name) in
      let text = "getting tenant node " <> node.name in
      outcome_attempt Done (wrapping text (c.get_node node.name)) _ _ w
        (λ current got done.
          let u = now (wrapping text (c.get_node node.name) w).1 in
          let shown = with_node_status quantities version u.0 current node in
          let put = laws.status_ok shown u.1 done in
          subst (λ k. ShowsStatus quantities node (node_at (c.update_node_status shown u.1).1 k))
            (laws.get_node_named node.name w current
              (wrapping_ok text (c.get_node node.name) w current got))
            (record {
              kept = put.kept;
              is_kept = put.is_kept;
              time = u.0;
              capacity = put.capacity;
              allocatable = put.allocatable;
              conditions = put.conditions;
            }))
        (λ e _ done. cc (done))

  upsert_lease_at-Keeps :
      (P : Option (CoreNode Q) → Type 0) (t : ℕ)
      → Keeps
          (λ w. P (node_at w node.name))
          (upsert_lease_at quantities version now retry c node.name t)
  unfolding upsert_lease_at
  upsert_lease_at-Keeps P t =
      Keeps-attempt _ _ _
        (λ e.
          Keeps-test _ _ _ (Keeps-wrapping _ _ (leaving_nodes P _ (laws.create_lease_keeps _)))
            (Keeps-answer _))
        (λ current. Keeps-wrapping _ _ (leaving_nodes P _ (laws.update_lease_keeps _ _)))
        (leaving_nodes P _ (laws.get_lease_keeps _ _))

  upsert_lease-Keeps :
      (P : Option (CoreNode Q) → Type 0)
      → Keeps (λ w. P (node_at w node.name)) (upsert_lease quantities version now retry c node.name)
  unfolding upsert_lease
  upsert_lease-Keeps P = record {
    at = λ w h.
        (upsert_lease_at-Keeps P (now w).0).at (now w).1 ((leaving_nodes P now clock).at w h);
  }

  upsert_lease-IsLeased :
      (w : W)
      → (upsert_lease quantities version now retry c node.name w).0 ≡ ok tt
      → IsLeased node (
          lease_at
            (upsert_lease quantities version now retry c node.name w).1
            lease_namespace
            node.name)
  unfolding upsert_lease upsert_lease_at held_lease answer
  upsert_lease-IsLeased w =
      let There : W → Type 0 = λ t. IsLeased node (lease_at t lease_namespace node.name) in
      let Done : Result (Unit {0}) × W → Type 0 = λ (r, t). r ≡ ok tt → There t in
      outcome_attempt Done _ _ _ (now w).1
        (λ current got. done_wrapping There _ _ _ (λ done.
          let u = (c.get_lease lease_namespace node.name (now w).1).1 in
          let held = held_lease (now w).0 node.name current in
          let (placed, named) =
            laws.get_lease_named lease_namespace node.name (now w).1 current got in
          subst
            (λ k.
              IsLeased node (lease_at (c.update_lease lease_namespace held u).1 lease_namespace k))
            named
            (record {
              lease = held;
              is_lease = laws.update_lease_ok lease_namespace _ _ placed done;
              holder = refl;
              duration = refl;
            })))
        (λ e _.
          outcome_test Done (is_not_found e) _ _ _
            (λ _. done_wrapping There _ _ _ (λ done. record {
              lease = held_lease (now w).0 node.name (new_lease node.name);
              is_lease = laws.create_lease_ok _ _ done;
              holder = refl;
              duration = refl;
            }))
            (λ _ done. cc (done)))

  pub sync_node-IsPresent :
      (w : W)
      → Described (node_at w node.name)
      → (sync_node quantities version now retry c node w).0 ≡ ok tt
      → Present (sync_node quantities version now retry c node w).1
  unfolding sync_node ◌>>=◌ answer
  sync_node-IsPresent w h =
      let Shown : Result (Unit {0}) × W → Type 0 =
        λ (r, t). r ≡ ok tt → ShowsStatus quantities node (node_at t node.name) in
      let Done : Result (Unit {0}) × W → Type 0 = λ (r, t). r ≡ ok tt → Present t in
      let writing = write_node_status quantities version now retry c node in
      let text = "updating tenant node " <> (node.name <> " status") in
      outcome_attempt Done (wrapping text (retry writing)) raise _ w
        (λ u written done.
          let after = (wrapping text (retry writing) w).1 in
          let described =
            (Keeps-wrapping text (retry writing)
                (retry-Keeps retries writing write_node_status-Described)).at
              w h in
          let shown =
            done_wrapping (λ t. ShowsStatus quantities node (node_at t node.name)) text
              (retry writing) w
              (outcome_retry retries Shown writing w write_node_status-ShowsStatus) written in
          record {
            described = (upsert_lease-Keeps Described).at after described;
            shown = (upsert_lease-Keeps (ShowsStatus quantities node)).at after shown;
            leased = upsert_lease-IsLeased after done;
          })
        (λ e _ done. cc (done))
