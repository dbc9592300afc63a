-- ===== src/Adapter/NodeRepository/Saves.antt =====
-- What a save does to the entries of the repository, on every branch, and what it has done where it succeeds.
use mathlib.Core.Path.{subst}
use vnode.Base.{
  ◌≡◌, inl, inr, refl, sym, ◌∙◌, String, Bool, true, false, Option, List, [], ◌∷◌, arith, ◌||◌,
  if◌then◌else◌, ◌==◌,
}
use vnode.Base.Errors.{Error, Result, ok, err, is_context_error, is_not_found, is_conflict}
use vnode.Base.Exec.{Exec, Action, answer, raise, unless_context, ◌>>=◌}
use vnode.Base.Exec.Keeps.{Keeps, keeps_rules, Keeps-attempt, Keeps-attempt_known}
use vnode.Base.Exec.Outcome.{outcome_attempt, outcome_test}
use vnode.Model.Node.{NodeCondition, VNode}
use vnode.Ports.Laws.{View, SavedAs, Saving}
use vnode.Api.{VNodeCr, VNodeApi, conditions_of}
use vnode.Api.NodeLaws.{Shows, VNodeApiLaws, NeverCancelled}
use vnode.Api.Retry.{Retries, retry-Keeps, outcome_retry}
use vnode.Adapter.NodeRepository.{
  apply_node_status, conditions_to, new_cr, annotated, write_status, update_node_cr,
  write_annotations, create_node, save_existing, save,
}

status_back : (b : Bool) → ((if b then "True" else "False") == "True") ≡ b
status_back true = refl
status_back false = refl

conditions_back : (cs : List NodeCondition) → conditions_of (conditions_to cs) ≡ cs
unfolding conditions_of conditions_to
conditions_back [] = refl
conditions_back (c ∷ cs) = cc (status_back c.status, conditions_back cs)

-- A resource of the node's key that shows the node's status.
saved_by :
    (cr : VNodeCr) (node : VNode) (found : Option VNode)
    → Shows (apply_node_status cr node) found
    → SavedAs node found
unfolding apply_node_status
saved_by cr node found h = record {
  kept = h.kept;
  is_kept = h.is_kept;
  phase = h.phase;
  conditions = h.conditions ∙ conditions_back node.conditions;
}

-- What a save of the node has done so far.
pub record Saved {S : Type 0} (find : View S) (n : VNode) (s t : S) : Type 0 where
  pub at : (ns name : String) → Saving n (find s ns name) (find t ns name) ns name

module _ {S : Type 0} {api : VNodeApi S} {find : View S} (laws : VNodeApiLaws api find)
    {retry : Action S → Action S} (retries : Retries retry) (n : VNode) (s : S) where
  reading :
      {A : Type 0} (m : Exec S A)
      → ((t : S) (ns name : String) → find (m t).1 ns name ≡ find t ns name)
      → Keeps (Saved find n s) m
  reading m same = record {
    at = λ t h. record {
      at = λ ns name.
          subst (λ o. Saving n (find s ns name) o ns name) (sym (same t ns name)) (h.at ns name);
    };
  }

  creating : Keeps (Saved find n s) (api.create (new_cr n))
  unfolding new_cr
  creating = record {
    at = λ t h. record {
      at = λ ns name. elim (laws.create_changes (new_cr n) t ns name) [
        | inl same ↦ subst (λ o. Saving n (find s ns name) o ns name) (sym same) (h.at ns name)
        | inr (e, f, blank) ↦ inr (e, f, inr blank)
      ];
    };
  }

  -- The resource has the key of the node.
  abbrev Named : VNodeCr → Type 0
  Named cr = (cr.namespace ≡ n.namespace) × (cr.name ≡ n.name)

  writing :
      (cr : VNodeCr)
      → Named cr
      → Keeps (Saved find n s) (api.update_status (apply_node_status cr n))
  unfolding apply_node_status
  writing cr (e, f) = record {
    at = λ t h. record {
      at = λ ns name. elim (laws.status_changes (apply_node_status cr n) t ns name) [
        | inl same ↦ subst (λ o. Saving n (find s ns name) o ns name) (sym same) (h.at ns name)
        | inr (j, k, shown) ↦ inr (j ∙ e, k ∙ f, inl (saved_by cr n _ shown))
      ];
    };
  }

  getting : Keeps (Saved find n s) (api.get n.namespace n.name)
  getting = reading (api.get n.namespace n.name) (laws.get_keeps n.namespace n.name)

  annotating : (cr : VNodeCr) → Keeps (Saved find n s) (api.update cr)
  annotating cr = reading (api.update cr) (laws.update_keeps cr)

  ruleset saving_rules = (keeps_rules, creating, getting, annotating)

  write_status-Keeps : Keeps (Saved find n s) (write_status api retry n)
  unfolding write_status
  write_status-Keeps =
      Keeps-attempt_known Named _ _ _ (laws.get_named n.namespace n.name) (λ e. search saving_rules)
        (λ cr named.
          let written : Keeps (Saved find n s) (api.update_status (apply_node_status cr n)) =
            writing cr named in
          Keeps-attempt _ _ _ (λ e. search saving_rules) (λ a. search saving_rules) written)
        getting

  update_node_cr-Keeps : Keeps (Saved find n s) (update_node_cr api retry n)
  unfolding update_node_cr
  update_node_cr-Keeps = retry-Keeps retries (write_status api retry n) write_status-Keeps

  create_node-Keeps : Keeps (Saved find n s) (create_node api retry n)
  unfolding create_node new_cr
  create_node-Keeps =
      Keeps-attempt_known Named _ _ _ (λ t made e. laws.create_named (new_cr n) made t e)
        (λ e. search saving_rules)
        (λ made named.
          let written : Keeps (Saved find n s) (api.update_status (apply_node_status made n)) =
            writing made named in
          Keeps-attempt _ _ _ (λ e. search (saving_rules, update_node_cr-Keeps))
            (λ a. search saving_rules) written)
        creating

  write_annotations-Keeps : Keeps (Saved find n s) (write_annotations api retry n)
  unfolding write_annotations
  write_annotations-Keeps = search saving_rules

  save_existing-Keeps : Keeps (Saved find n s) (save_existing api retry n)
  unfolding save_existing
  save_existing-Keeps =
      Keeps-attempt _ _ _ (λ e. search saving_rules) (λ _. update_node_cr-Keeps)
        (retry-Keeps retries (write_annotations api retry n) write_annotations-Keeps)

  pub save-Keeps : Keeps (Saved find n s) (save api retry n)
  unfolding save
  save-Keeps = search (saving_rules, create_node-Keeps, save_existing-Keeps)

-- A save that returns no error left the node's status where it is found.
abbrev pub Stored : {S : Type 0} → View S → VNode → Result (Unit {0}) × S → Type 0
Stored find n (r, t) = r ≡ ok tt → SavedAs n (find t n.namespace n.name)

module _ {S : Type 0} {api : VNodeApi S} {find : View S} (laws : VNodeApiLaws api find)
    {retry : Action S → Action S} (retries : Retries retry) (live : NeverCancelled api)
    (n : VNode) where
  failing-Stored :
      (e : Error) (t : S)
      → is_context_error e ≡ false
      → Stored find n (unless_context e (raise e) t)
  unfolding unless_context answer
  failing-Stored e t h = rw h (λ x. cc)

  shows-Stored :
      (cr : VNodeCr)
      → (cr.namespace ≡ n.namespace) × (cr.name ≡ n.name)
      → (s : S) → Stored find n (api.update_status (apply_node_status cr n) s)
  unfolding apply_node_status
  shows-Stored cr (e, f) s h =
      let c = apply_node_status cr n in
      let t = (api.update_status c s).1 in
      let shown = subst (λ k. Shows c (find t cr.namespace k)) f (laws.status_ok c s h) in
      saved_by cr n _ (subst (λ j. Shows c (find t j n.name)) e shown)

  write_status-Stored : (s : S) → Stored find n (write_status api retry n s)
  unfolding write_status answer
  write_status-Stored s =
      outcome_attempt (Stored find n) _ _ _ s
        (λ cr read.
          let named = laws.get_named n.namespace n.name s cr read in
          outcome_attempt (Stored find n) _ _ _ _ (λ u written h. shows-Stored cr named _ written)
            (λ e bad. failing-Stored e _ (live.update_status (apply_node_status cr n) _ e bad)))
        (λ e bad. failing-Stored e _ (live.get n.namespace n.name s e bad))

  update_node_cr-Stored : (s : S) → Stored find n (update_node_cr api retry n s)
  unfolding update_node_cr
  update_node_cr-Stored s =
      outcome_retry retries (Stored find n) (write_status api retry n) s write_status-Stored

  create_node-Stored : (s : S) → Stored find n (create_node api retry n s)
  unfolding create_node new_cr answer
  create_node-Stored s =
      outcome_attempt (Stored find n) _ _ _ s
        (λ made e.
          let named = laws.create_named (new_cr n) made s e in
          outcome_attempt (Stored find n) _ _ _ _ (λ u written h. shows-Stored made named _ written)
            (λ x bad.
              outcome_test (Stored find n) (is_conflict x || is_not_found x) _ _ _
                (λ _. update_node_cr-Stored _) (λ _ h. cc)))
        (λ e bad h. cc)

  -- What is shown of the outcome of the annotations' write: it fails for no cancelled context.
  write_annotations_quiet :
      (s : S) (e : Error) → (write_annotations api retry n s).0 ≡ err e → is_context_error e ≡ false
  unfolding write_annotations ◌>>=◌
  write_annotations_quiet s e =
      outcome_attempt (λ (r : Result (Unit {0}) × S). r.0 ≡ err e → is_context_error e ≡ false)
        (api.get n.namespace n.name) raise (λ cr. api.update (annotated cr n)) s
        (λ cr read h. live.update (annotated cr n) _ e h)
        (λ x bad h. live.get n.namespace n.name s e (ground (arith, bad, h)))

  save_existing-Stored : (s : S) → Stored find n (save_existing api retry n s)
  unfolding save_existing
  save_existing-Stored s =
      outcome_attempt (Stored find n) _ _ _ s (λ _ _. update_node_cr-Stored _)
        (λ e bad. failing-Stored e _ (
          outcome_retry retries
            (λ (r : Result (Unit {0}) × S). (x : Error) → r.0 ≡ err x → is_context_error x ≡ false)
            (write_annotations api retry n) s write_annotations_quiet e bad))

  pub save-Stored : (s : S) → Stored find n (save api retry n s)
  unfolding save answer
  save-Stored s =
      outcome_attempt (Stored find n) _ _ _ s (λ _ _. save_existing-Stored _)
        (λ e _.
          outcome_test (Stored find n) (is_not_found e) _ _ _ (λ _. create_node-Stored _)
            (λ _ h. cc))
