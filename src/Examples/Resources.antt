-- ===== src/Examples/Resources.antt =====
-- `VNode` resources in memory, the retries of client-go, and their laws.
use vnode.Base.{
  ℕ, zero, suc, ◌≡◌, ◌⊎◌, inl, inr, refl, sym, String, Bool, true, false, ◌&&◌, Option, none, some,
  [], ◌==◌, if◌then◌else◌, Bool-cases, arith, eq_iff, eq_refl,
}
use vnode.Base.Errors.{
  Error, Result, ok, err, leaf, not_found, canceled, is_conflict, is_context_error,
}
use vnode.Base.Exec.{Action}
use vnode.Model.Node.{VNode}
use vnode.Ports.Laws.{View, IsBlank}
use vnode.Service.NodeMarks.{no_node}
use vnode.Api.{VNodeCr, VNodeApi, conditions_of}
use vnode.Api.NodeLaws.{Shows, VNodeApiLaws, NeverCancelled}
use vnode.Api.Retry.{Retried, once, again, Retries}

-- What a call returned, or the outcome of calling again after a conflict.
abbrev settled :
    {S : Type 0} → Result (Unit {0}) × S → Result (Unit {0}) × S → Result (Unit {0}) × S
settled (ok u, t) rest = (ok u, t)
settled (err e, t) rest = if is_conflict e then rest else (err e, t)

-- At most `k` further attempts.
abbrev pub retry_on : {S : Type 0} → ℕ → Action S → Action S
retry_on zero run s = run s
retry_on (suc k) run s = let rest = retry_on k run (run s).1 in settled (run s) rest

settled-Retried :
    {S : Type 0} (run : Action S) (s : S) (out rest : Result (Unit {0}) × S)
    → run s ≡ out
    → Retried run out.1 rest
    → Retried run s (settled out rest)
settled-Retried run s (ok u, t) rest h more = once h
settled-Retried run s (err e, t) rest h more = elim (Bool-cases (is_conflict e)) [
  | inl here ↦ rw here (again h here more)
  | inr other ↦ rw other (once h)
]

retry_on-Retried : {S : Type 0} (k : ℕ) (run : Action S) (s : S) → Retried run s (retry_on k run s)
retry_on-Retried zero run s = once refl
retry_on-Retried (suc k) run s =
    settled-Retried run s (run s) _ refl (retry_on-Retried k run (run s).1)

-- `retry.DefaultRetry` has five attempts.
pub retry_on-Retries : {S : Type 0} → Retries (retry_on {S = S} 4)
retry_on-Retries = record { at = retry_on-Retried 4 }

pub retry_once-Retries : {S : Type 0} → Retries (retry_on {S = S} 0)
retry_once-Retries = record { at = retry_on-Retried 0 }

abbrev pub Resources : Type 0
Resources = String → String → Option VNodeCr

abbrev is_at : String → String → VNodeCr → Bool
is_at ns name cr = (cr.namespace == ns) && (cr.name == name)

abbrev pub put : VNodeCr → Resources → Resources
put cr w ns name = if is_at ns name cr then some cr else w ns name

abbrev read_at : String → String → Option VNodeCr → Result VNodeCr
read_at ns name none = err (leaf not_found name)
read_at ns name (some cr) = ok (record cr { namespace = ns; name = name })

abbrev without_status : VNodeCr → VNodeCr
without_status cr = record cr { phase = ""; conditions = [] }

-- `updated` takes all of `cr` but the status, and `restated` the status alone.
abbrev updated : VNodeCr → Option VNodeCr → Option VNodeCr
updated cr none = none
updated cr (some old) = some (record cr { phase = old.phase; conditions = old.conditions })

abbrev found_or : Option VNodeCr → Result (Unit {0})
found_or none = err (leaf not_found "VNode")
found_or (some cr) = ok tt

abbrev restated : VNodeCr → Option VNodeCr → Option VNodeCr
restated cr none = none
restated cr (some old) = some (record old { phase = cr.phase; conditions = cr.conditions })

abbrev at_key : VNodeCr → (Option VNodeCr → Option VNodeCr) → Resources → Resources
at_key cr f w ns name = if is_at ns name cr then f (w ns name) else w ns name

-- Whether the context of updates is cancelled.
abbrev pub api : Bool → VNodeApi Resources
api shut = record {
  get = λ ns name w. (read_at ns name (w ns name), w);
  create = λ cr w. (ok cr, put (without_status cr) w);
  update = λ cr w.
      if shut
      then (err (leaf canceled "context canceled"), w)
      else (found_or (w cr.namespace cr.name), at_key cr (updated cr) w);
  update_status = λ cr w. (found_or (w cr.namespace cr.name), at_key cr (restated cr) w);
  delete = λ j k w. (ok tt, λ ns name. if (j == ns) && (k == name) then none else w ns name);
  list = λ ns labels w. (ok [], w);
}

abbrev shown : String → String → Option VNodeCr → Option VNode
shown ns name none = none
shown ns name (some cr) = some (record no_node {
  namespace = ns;
  name = name;
  phase = cr.phase;
  conditions = conditions_of cr.conditions;
})

abbrev pub find : View Resources
find w ns name = shown ns name (w ns name)

read_named :
    (ns name : String) (o : Option VNodeCr) (cr : VNodeCr)
    → read_at ns name o ≡ ok cr
    → (cr.namespace ≡ ns) × (cr.name ≡ name)
read_named ns name none cr h = cc
read_named ns name (some old) cr h = (cc (h), cc (h))

shown-updated :
    (ns name : String) (cr : VNodeCr) (o : Option VNodeCr)
    → shown ns name (updated cr o) ≡ shown ns name o
shown-updated ns name cr none = refl
shown-updated ns name cr (some old) = refl

find-updated :
    (cr : VNodeCr) (w : Resources) (ns name : String)
    → find (at_key cr (updated cr) w) ns name ≡ find w ns name
find-updated cr w ns name = elim (Bool-cases (is_at ns name cr)) [
  | inl here ↦ rw here (shown-updated ns name cr (w ns name))
  | inr other ↦ rw other
]

update_keeps :
    (shut : Bool) (cr : VNodeCr) (w : Resources) (ns name : String)
    → find ((api shut).update cr w).1 ns name ≡ find w ns name
update_keeps true cr w ns name = refl
update_keeps false cr w ns name = find-updated cr w ns name

-- A test of a key says that the key is that of the resource.
is_at-keys :
    (ns name : String) (cr : VNodeCr)
    → is_at ns name cr ≡ true
    → (ns ≡ cr.namespace) × (name ≡ cr.name)
is_at-keys ns name cr h = (
  sym ((eq_iff cr.namespace ns).0 (ground (arith, h))),
  sym ((eq_iff cr.name name).0 (ground (arith, h))),
)

shown-IsBlank :
    (cr : VNodeCr) (ns name : String) → IsBlank (shown ns name (some (without_status cr)))
unfolding conditions_of
shown-IsBlank cr ns name = record { kept = _; is_kept = refl; phase = refl; conditions = refl }

create_changes :
    (cr : VNodeCr) (w : Resources) (ns name : String)
    → (find (put (without_status cr) w) ns name ≡ find w ns name)
      ⊎ ((ns ≡ cr.namespace)
          × (name ≡ cr.name)
          × IsBlank (find (put (without_status cr) w) ns name))
create_changes cr w ns name = elim (Bool-cases (is_at ns name cr)) [
  | inl here ↦
      let (e, f) = is_at-keys ns name cr here in inr (e, f, rw here (shown-IsBlank cr ns name))
  | inr other ↦ inl (rw other)
]

shown-restated :
    (cr old : VNodeCr) (ns name : String) → Shows cr (shown ns name (restated cr (some old)))
shown-restated cr old ns name = record { kept = _; is_kept = refl; phase = refl; conditions = refl }

restating :
    (cr : VNodeCr) (o : Option VNodeCr) (ns name : String)
    → (shown ns name (restated cr o) ≡ shown ns name o) ⊎ Shows cr (shown ns name (restated cr o))
restating cr none ns name = inl refl
restating cr (some old) ns name = inr (shown-restated cr old ns name)

status_changes :
    (cr : VNodeCr) (w : Resources) (ns name : String)
    → (find (at_key cr (restated cr) w) ns name ≡ find w ns name)
      ⊎ ((ns ≡ cr.namespace)
          × (name ≡ cr.name)
          × Shows cr (find (at_key cr (restated cr) w) ns name))
status_changes cr w ns name = elim (Bool-cases (is_at ns name cr)) [
  | inl here ↦
      let (e, f) = is_at-keys ns name cr here in
      elim (restating cr (w ns name) ns name) [
        | inl same ↦ inl (rw here same)
        | inr shows ↦ inr (e, f, rw here shows)
      ]
  | inr other ↦ inl (rw other)
]

found-restated :
    (cr : VNodeCr) (o : Option VNodeCr) (ns name : String)
    → found_or o ≡ ok tt
    → Shows cr (shown ns name (restated cr o))
found-restated cr none ns name h = cc
found-restated cr (some old) ns name h = shown-restated cr old ns name

status_ok :
    (cr : VNodeCr) (w : Resources)
    → found_or (w cr.namespace cr.name) ≡ ok tt
    → Shows cr (find (at_key cr (restated cr) w) cr.namespace cr.name)
status_ok cr w h =
    rw (eq_refl cr.namespace, eq_refl cr.name)
      (found-restated cr (w cr.namespace cr.name) cr.namespace cr.name h)

pub api-VNodeApiLaws : (shut : Bool) → VNodeApiLaws (api shut) find
api-VNodeApiLaws shut = record {
  get_keeps = λ j k w ns name. refl;
  get_named = λ ns name w cr h. read_named ns name (w ns name) cr h;
  create_changes = create_changes;
  create_named = λ cr made w h. (cc (h), cc (h));
  update_keeps = update_keeps shut;
  status_changes = status_changes;
  status_ok = status_ok;
  delete_changes = λ j k w ns name. elim (Bool-cases ((j == ns) && (k == name))) [
    | inl here ↦ inr (rw here)
    | inr other ↦ inl (rw other)
  ];
  delete_ok = λ ns name w _. rw (eq_refl ns, eq_refl name);
  list_keeps = λ j labels w ns name. refl;
}

read_live :
    (ns name : String) (o : Option VNodeCr) (e : Error)
    → read_at ns name o ≡ err e
    → is_context_error e ≡ false
read_live ns name none e h = ground (arith, h)
read_live ns name (some old) e h = cc

found_live : (o : Option VNodeCr) (e : Error) → found_or o ≡ err e → is_context_error e ≡ false
found_live none e h = ground (arith, h)
found_live (some old) e h = cc

pub api-NeverCancelled : NeverCancelled (api false)
api-NeverCancelled = record {
  get = λ ns name w e h. read_live ns name (w ns name) e h;
  update = λ cr w e h. found_live (w cr.namespace cr.name) e h;
  update_status = λ cr w e h. found_live (w cr.namespace cr.name) e h;
}
