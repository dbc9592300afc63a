-- ===== src/Model/Pool/Validation.antt =====
-- What `Validate` accepts.
use vnode.Base.{◌≡◌, ◌≢◌, ◌↔◌, ◌⊎◌, none, [], arith, eq_iff}
use vnode.Base.Int.{neg_part}
use vnode.Model.Pool.{VNodePool, validate, mode_shared, mode_dedicated, mode_burstable}

-- A pool that the reconcilers may act on.
pub record IsValid (p : VNodePool) : Type 0 where
  pub named : p.name ≢ ""
  pub has_kubeconfig : p.tenant_ref.kubeconfig_secret ≢ ""
  pub counted : neg_part p.node_count ≡ 0
  pub selected : p.mode ≡ mode_dedicated → p.node_selector ≢ []
  pub known_mode :
      (p.mode ≡ mode_shared) ⊎ (p.mode ≡ mode_dedicated) ⊎ (p.mode ≡ mode_burstable) ⊎ (p.mode ≡ "")

-- `Validate` returns nil exactly for the pools with a name, a kubeconfig secret, a count that is not
-- negative, a known mode, and a node selector where the mode is dedicated.
pub validate_iff : (p : VNodePool) → (validate p ≡ none) ↔ IsValid p
unfolding validate
validate_iff p = (
  λ h. ground (
    arith,
    eq_iff p.name "",
    eq_iff p.tenant_ref.kubeconfig_secret "",
    eq_iff p.mode mode_dedicated,
    eq_iff p.mode mode_shared,
    eq_iff p.mode mode_burstable,
    eq_iff p.mode "",
  ),
  λ v. ground (
    arith,
    eq_iff p.name "",
    eq_iff p.tenant_ref.kubeconfig_secret "",
    eq_iff p.mode mode_dedicated,
    eq_iff p.mode mode_shared,
    eq_iff p.mode mode_burstable,
    eq_iff p.mode "",
  ),
)
