-- ===== src/Model/Pod/Labels.antt =====
-- The labels of the host pod.
use vnode.Base.{◌≡◌, String, Option, none, some, [], ◌∷◌, arith, eq_iff}
use vnode.Base.Map.{Map, lookup, insert, lookup-insert}
use vnode.Model.Pod.{PodSpec, TranslateOpts, vnode_labels, copy_labels, translate_pod}

-- The first of two lookups that finds something.
abbrev pub first_found : Option String → Option String → Option String
first_found none o = o
first_found (some v) o = some v

lookup-copy_labels :
    (k : String) (labels target : Map String)
    → lookup k (copy_labels labels target) ≡ first_found (lookup k target) (lookup k labels)
unfolding copy_labels
lookup-copy_labels k [] target = ground arith
lookup-copy_labels k ((j, v) ∷ labels) target = ground (
  arith,
  eq_iff k j,
  lookup-insert j k v target,
  lookup-copy_labels k labels target,
  lookup-copy_labels k labels (insert j v target),
)

-- A key of the host pod's labels has the value that the operator gives it, and where it gives none,
-- the value of the tenant's label: a tenant cannot take the place of a tracking label.
pub lookup-translate_pod :
    (k : String) (source : PodSpec) (opts : TranslateOpts)
    → lookup k (translate_pod source opts).target_pod.labels
      ≡ first_found (lookup k (vnode_labels source opts)) (lookup k source.labels)
unfolding translate_pod
lookup-translate_pod k source opts = lookup-copy_labels k source.labels (vnode_labels source opts)
