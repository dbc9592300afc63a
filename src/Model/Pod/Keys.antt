-- ===== src/Model/Pod/Keys.antt =====
-- The labels of the host pod have each key once.
use vnode.Base.{refl, String, Bool, true, false, [], ◌∷◌, is_some, if◌then◌else◌}
use vnode.Base.Map.{Map, lookup, insert, NodupKeys, NodupKeys-insert}
use vnode.Model.Pod.{PodSpec, TranslateOpts, vnode_labels, copy_labels, translate_pod}

NodupKeys-test :
    (test : Bool) (a b : Map String) → NodupKeys a → NodupKeys b → NodupKeys (if test then a else b)
NodupKeys-test true a b d e = d
NodupKeys-test false a b d e = e

NodupKeys-copy_labels :
    (labels target : Map String) → NodupKeys target → NodupKeys (copy_labels labels target)
unfolding copy_labels
NodupKeys-copy_labels [] target d = d
NodupKeys-copy_labels ((k, v) ∷ labels) target d = NodupKeys-copy_labels labels _ (
    NodupKeys-test (is_some (lookup k target)) target (insert k v target) d
      (NodupKeys-insert k v target d))

pub NodupKeys-translate_pod :
    (source : PodSpec) (opts : TranslateOpts)
    → NodupKeys (translate_pod source opts).target_pod.labels
unfolding translate_pod
NodupKeys-translate_pod source opts =
    NodupKeys-copy_labels source.labels (vnode_labels source opts)
      (((((tt, refl), refl), refl), refl), refl)
