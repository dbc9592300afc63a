-- ===== src/Adapter/Kubeconfig.antt =====
-- internal/adapter/outbound/kubeclient/kubeconfig.go: the kubeconfig of a tenant, from a secret.
use mathlib.Core.Path.{subst}
use vnode.Base.{
  true, ◌≡◌, ◌≢◌, ◌⊎◌, String, ◌<>◌, Option, none, some, List, [], ◌∷◌, ◌==◌, ◌&&◌, not, is_some,
  if◌then◌else◌, arith, eq_iff,
}
use vnode.Base.Errors.{Error, Result, ok, err, wrap, errorf}
use vnode.Base.Exec.{Exec, answer, raise, attempt}
use vnode.Base.Exec.Outcome.{outcome_attempt}
use vnode.Base.Map.{Map, lookup, get}
use vnode.Kube.{HostApi, Secret}
use vnode.Ports.{KubeconfigResolver}

abbrev pub kubeconfig_keys : List String
kubeconfig_keys = "kubeconfig" ∷ "config" ∷ "value" ∷ []

-- The loop over the names of keys.
unfoldable pub first_value : List String → Map String → Option String
first_value [] m = none
first_value (key ∷ keys) m =
    let rest = first_value keys m in
    if is_some (lookup key m) && not (get key m == "") then some (get key m) else rest

abbrev value_or : Option String → Error → Result String
value_or none e = err e
value_or (some v) e = ok v

module _ {Q S : Type 0} (api : HostApi Q S) where
  unfoldable pub resolve : String → String → Exec S String
  unfolding first_value
  resolve ns name =
      attempt (api.get_secret ns name)
        (λ e. raise (wrap ("getting kubeconfig secret " <> (ns <> ("/" <> name))) e))
        (λ secret. answer (
          value_or (first_value kubeconfig_keys secret.content) (
            errorf (
              "kubeconfig secret "
              <> (ns
                  <> ("/"
                      <> (name
                          <> " has no recognized kubeconfig key (tried: kubeconfig, config, value)")))))))

  abbrev pub secret_kubeconfig_resolver : KubeconfigResolver S
  secret_kubeconfig_resolver = record { resolve = resolve }

-- The text is the first of the three values that is not empty; a missing key counts as an empty one.
pub record IsFirstValue (m : Map String) (found : String) : Type 0 where
  pub filled : found ≢ ""
  pub first :
      (get "kubeconfig" m ≡ found)
      ⊎ ((get "kubeconfig" m ≡ "") × (get "config" m ≡ found))
      ⊎ ((get "kubeconfig" m ≡ "") × (get "config" m ≡ "") × (get "value" m ≡ found))

filled_is_there : (key : String) (m : Map String) → get key m ≢ "" → is_some (lookup key m) ≡ true
filled_is_there key m h = ground arith

first_value-IsFirstValue :
    (m : Map String) (found : String)
    → first_value kubeconfig_keys m ≡ some found
    → IsFirstValue m found
unfolding first_value
first_value-IsFirstValue m found h =
    let k = eq_iff (get "kubeconfig" m) "" in
    let c = eq_iff (get "config" m) "" in
    let v = eq_iff (get "value" m) "" in
    let a = filled_is_there "kubeconfig" m in
    let b = filled_is_there "config" m in
    record { filled = ground (arith, k, c, v); first = ground (arith, k, c, v, a, b) }

value_or_ok :
    (o : Option String) (e : Error) (found : String) → value_or o e ≡ ok found → o ≡ some found
value_or_ok none e found h = ground (arith, h)
value_or_ok (some v) e found h = ground (arith, h)

module _ {Q S : Type 0} (api : HostApi Q S) (ns name : String) (s : S) (secret : Secret)
    (there : (api.get_secret ns name s).0 ≡ ok secret) where
  -- A kubeconfig that is resolved from a secret that is found is not empty, and it is the value of the
  -- first of the keys kubeconfig, config and value that has one which is not empty.
  pub resolve-IsFirstValue :
      (found : String) → (resolve api ns name s).0 ≡ ok found → IsFirstValue secret.content found
  unfolding resolve answer
  resolve-IsFirstValue found =
      outcome_attempt
        (λ (r : Result String × S). r.0 ≡ ok found → IsFirstValue secret.content found) _ _ _ s
        (λ other read h.
          let same : other ≡ secret = ground (arith, there, read) in
          let chosen : first_value kubeconfig_keys other.content ≡ some found =
            value_or_ok (first_value kubeconfig_keys other.content) _ found h in
          subst (λ (x : Secret). IsFirstValue x.content found) same
            (first_value-IsFirstValue other.content found chosen))
        (λ e read h. ground (arith, there, read))
