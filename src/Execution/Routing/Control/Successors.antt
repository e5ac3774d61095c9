-- ===== src/Execution/Routing/Control/Successors.antt =====
-- routing.py: the activations that `_resolve_control` resolves for the settled nodes.
use motev.Base.{
  Bool-cases, Ensures, Ensures-bind, Ensures-err, Ensures-if, Ensures-next, Ensures-ok, In,
  In-append_left, In-last, In-sort_by, List, Option, Ordering, Result, [], ap, collect, contains,
  eq_of_some, eq_of_test, get, get-put, inl, inr, list_eq, map, nat_eq, nat_ord, none, ok,
  option_eq, pair_eq, refl, same_set, some, sort_by, string_eq, string_ord, subst, sym, test_of_eq,
  ◌++◌, ◌/=◌, ◌==◌, ◌∙◌, ◌∷◌, ◌≡◌,
}
use motev.Execution.Graph.{CompiledGraph, compiled_join_eq, end_node}
use motev.Execution.Routing.Contribution.{successor_targets_for_reference}
use motev.Execution.Routing.Control.{
  Progression, Resolution, activate_target, contribute, progress_join, resolve_control,
}
use motev.Execution.Routing.Diagnosis.{append_at, or_empty}
use motev.Execution.Routing.Evaluation.{Candidates, RoutingFacts, add_targets}
use motev.Execution.Routing.Joins.{fold, node_of}
use motev.GraphState.FrontierModel.{
  GraphActivationCause, GraphFrontierActivation, GraphRoutingContribution, cause_eq,
  frontier_status_eq, new_frontier_activation, new_routed_cause, routed_cause,
  routing_contributions, selected_route,
}
use motev.GraphState.Identity.{
  ActivationReference, GraphActivationIdentity, GraphJoinOccurrenceIdentity, GraphNodeId,
  GraphRouteId, activation_eq, compare_references, join_eq, new_activation, new_reference,
  occurrence_eq, occurrence_ord, reference_eq,
}
use motev.GraphState.Model.{GraphRunState, progress_eq, run_status_eq, state_eq, token_eq}
use motev.GraphState.Reducer.Ledger.{new_activation-fields, new_reference-fields}

-- A cause stands among the candidates of a target.
abbrev Has : Candidates → GraphNodeId → GraphActivationCause → Type 0
Has candidates target cause = In cause (or_empty (get candidates target))

abbrev Grows : Candidates → Candidates → Type 0
Grows d e =
    (target : GraphNodeId) (cause : GraphActivationCause) → Has d target cause → Has e target cause

append_at-Grows :
    (d : Candidates) (target : GraphNodeId) (cause : GraphActivationCause)
    → Grows d (append_at d target cause)
unfolding append_at
append_at-Grows d target cause other c h = elim (Bool-cases (target == other)) [
  | inl same ↦
      let e : target ≡ other = eq_of_test target other same in
      rw (get-put d target other (or_empty (get d target) ++ cause ∷ []), same)
        (In-append_left c (or_empty (get d target)) (cause ∷ []) (subst (λ k. Has d k c) (sym e) h))
  | inr differ ↦ rw (get-put d target other (or_empty (get d target) ++ cause ∷ []), differ) h
]

append_at-Has :
    (d : Candidates) (target : GraphNodeId) (cause : GraphActivationCause)
    → Has (append_at d target cause) target cause
unfolding append_at
append_at-Has d target cause =
    rw
      (
        get-put d target target (or_empty (get d target) ++ cause ∷ []),
        test_of_eq target target refl,
      )
      (In-last cause (or_empty (get d target)))

new_routed_cause-returns :
    (references : List ActivationReference) (occurrence : Option GraphJoinOccurrenceIdentity)
    → Ensures
        (λ cause. cause ≡ routed_cause references occurrence)
        (new_routed_cause references occurrence)
unfolding new_routed_cause
new_routed_cause-returns references occurrence =
    Ensures-next _ _ λ _. Ensures-next _ _ λ _. Ensures-next _ _ λ _. Ensures-ok _ refl

-- What a loop step makes of the candidates for a reference and its targets.
abbrev AddsCauses : ActivationReference → List GraphNodeId → Candidates → Candidates → Type 0
AddsCauses reference targets d e =
    Grows d e
    × ((target : GraphNodeId)
        → In target targets
        → Has e target (routed_cause (reference ∷ []) none))

add_targets-AddsCauses :
    (reference : ActivationReference) (d : Candidates) (targets : List GraphNodeId)
    → Ensures (AddsCauses reference targets d) (add_targets reference d targets)
unfolding add_targets
add_targets-AddsCauses reference d [] = Ensures-ok _ (λ target cause h. h, λ target i. absurd i)
add_targets-AddsCauses reference d (first ∷ targets) = Ensures-bind _ _ λ cause made.
    let same = (new_routed_cause-returns (reference ∷ []) none).at cause made in
    record {
      at = λ e returned.
          let (grows, has) =
            (add_targets-AddsCauses reference (append_at d first cause) targets).at e returned in
          (
            λ target c h. grows target c (append_at-Grows d first cause target c h),
            λ target i. elim i [
              | inl same_target ↦
                  subst (λ k. Has e k (routed_cause (reference ∷ []) none)) (sym same_target)
                    (grows first _ (
                      subst (λ c. Has (append_at d first cause) first c) same
                        (append_at-Has d first cause)))
              | inr j ↦ has target j
            ],
          );
    }

-- The reference that a settled node contributes.
abbrev pub reference_of :
    GraphRunState → GraphNodeId → GraphRoutingContribution → ActivationReference
reference_of state node_id contribution = record {
  activation = record { run_id = state.run_id; superstep = state.superstep; node_id = node_id };
  route = selected_route contribution;
}

abbrev reference_at : GraphActivationIdentity → Option GraphRouteId → ActivationReference
reference_at activation route = record { activation = activation; route = route }

abbrev activation_at : GraphNodeId → GraphActivationCause → GraphFrontierActivation
activation_at node_id cause = record { node_id = node_id; cause = cause }

made_reference :
    (state : GraphRunState) (node_id : GraphNodeId) (contribution : GraphRoutingContribution)
    (activation : GraphActivationIdentity) (reference : ActivationReference)
    → new_activation state.run_id state.superstep node_id ≡ ok activation
    → new_reference activation (selected_route contribution) ≡ ok reference
    → reference ≡ reference_of state node_id contribution
made_reference state node_id contribution activation reference h k =
    new_reference-fields activation (selected_route contribution) reference k
    ∙ ap (λ (a : GraphActivationIdentity). reference_at a (selected_route contribution))
        (new_activation-fields state.run_id state.superstep node_id activation h)

module _ (graph : CompiledGraph) (state : GraphRunState) where
  -- The causes that a settled node contributes stand among the candidates.
  abbrev Stands : Candidates → GraphNodeId × GraphRoutingContribution → Type 0
  Stands d (node_id, contribution) =
      (targets : List GraphNodeId) (target : GraphNodeId)
      → successor_targets_for_reference graph (reference_of state node_id contribution) ≡ ok targets
      → In target targets
      → Has d target (routed_cause (reference_of state node_id contribution ∷ []) none)

  contribute-Stands :
      (resolution : Resolution) (node_id : GraphNodeId) (contribution : GraphRoutingContribution)
      → Ensures
          (λ (following : Resolution).
            Grows resolution.candidates following.candidates
            × Stands following.candidates (node_id, contribution))
          (contribute graph state resolution (node_id, contribution))
  unfolding contribute
  contribute-Stands resolution node_id contribution = Ensures-next _ _ λ _.
      Ensures-bind _ _ λ activation h. Ensures-bind _ _ λ reference k.
        Ensures-bind _ _ λ targets found. Ensures-bind _ _ λ candidates added.
          Ensures-next _ _ λ joins. Ensures-next _ _ λ arrivals. Ensures-ok _ (
            let same = made_reference state node_id contribution activation reference h k in
            let (grows, has) =
              (add_targets-AddsCauses reference resolution.candidates targets).at candidates
                added in
            (
              grows,
              λ others target found' i.
                  subst
                    (λ (r : ActivationReference).
                      Has candidates target (routed_cause (r ∷ []) none))
                    same
                    (has target (
                      subst (In target)
                        (of_ok (
                          sym found'
                          ∙ ap (successor_targets_for_reference graph) (sym same)
                          ∙ found))
                        i)),
            ))
    where
      of_ok : {x y : List GraphNodeId} → ok x ≡ ok y → x ≡ y
      of_ok e = cc

  fold-Stands :
      (items : List (GraphNodeId × GraphRoutingContribution)) (resolution : Resolution)
      → Ensures
          (λ (last : Resolution).
            Grows resolution.candidates last.candidates
            × ((item : GraphNodeId × GraphRoutingContribution)
                → In item items
                → Stands last.candidates item))
          (fold (contribute graph state) resolution items)
  unfolding fold
  fold-Stands [] resolution = Ensures-ok _ (λ target cause h. h, λ item i. absurd i)
  fold-Stands ((node_id, contribution) ∷ items) resolution = Ensures-bind _ _ λ following made.
      let (grows, stands) = (contribute-Stands resolution node_id contribution).at following made in
      record {
        at = λ last returned.
            let (grows', stands') = (fold-Stands items following).at last returned in
            (
              λ target cause h. grows' target cause (grows target cause h),
              λ item i. elim i [
                | inl same ↦
                    subst (Stands last.candidates) (sym same)
                      (λ targets target found j. grows' target _ (stands targets target found j))
                | inr j ↦ stands' item j
              ],
            );
      }

  progress_join-Grows :
      (progression : Progression) (entry : GraphJoinOccurrenceIdentity × List ActivationReference)
      → Ensures
          (λ (following : Progression). Grows progression.candidates following.candidates)
          (progress_join state progression entry)
  unfolding progress_join
  progress_join-Grows progression (occurrence, references) =
      Ensures-if
        (same_set (map node_of (sort_by compare_references references)) occurrence.join.sources) _ _
        (λ _. Ensures-next _ _ λ _.
          Ensures-if (occurrence.join.target /= end_node) _ _
            (λ _. Ensures-next _ _ λ cause.
              Ensures-ok _ (append_at-Grows progression.candidates occurrence.join.target cause))
            (λ _.
              Ensures-if (contains occurrence (map (λ item. item.occurrence) state.join_progress)) _
                _ (λ _. Ensures-ok _ (λ target cause h. h))
                (λ _. Ensures-ok _ (λ target cause h. h))))
        (λ _. Ensures-next _ _ λ _. Ensures-ok _ (λ target cause h. h))

  fold-Grows :
      (entries : List (GraphJoinOccurrenceIdentity × List ActivationReference))
      (progression : Progression)
      → Ensures
          (λ (last : Progression). Grows progression.candidates last.candidates)
          (fold (progress_join state) progression entries)
  unfolding fold
  fold-Grows [] progression = Ensures-ok _ (λ target cause h. h)
  fold-Grows (entry ∷ entries) progression = Ensures-bind _ _ λ following made. record {
    at = λ last returned target cause h.
        (fold-Grows entries following).at last returned target cause
          ((progress_join-Grows progression entry).at following made target cause h);
  }

get-In :
    (d : Candidates) (target : GraphNodeId) (causes : List GraphActivationCause)
    → get d target ≡ some causes
    → In (target, causes) d
unfolding get
get-In [] target causes h = cc
get-In ((other, found) ∷ d) target causes h = elim (Bool-cases (other == target)) [
  | inl same ↦
      let e = eq_of_test other target same in
      let f : found ≡ causes = eq_of_some (rw same at h) in inl (λ i. (sym e i, sym f i))
  | inr differ ↦ inr (get-In d target causes (rw differ at h))
]

collect-In :
    {A B : Type 0} (f : A → Result B) (x : A) (xs : List A)
    → In x xs
    → Ensures (λ (ys : List B). (y : B) × (f x ≡ ok y) × In y ys) (collect f xs)
unfolding collect
collect-In f x [] i = absurd i
collect-In f x (first ∷ xs) (inl same) =
    Ensures-bind _ _ λ y made. Ensures-next _ _ λ ys. Ensures-ok _ (y, ap f same ∙ made, inl refl)
collect-In f x (first ∷ xs) (inr i) = Ensures-next _ _ λ y.
    Ensures-bind _ _
      λ ys made. Ensures-ok _ (let (z, e, j) = (collect-In f x xs i).at ys made in (z, e, inr j))

activated :
    (target : GraphNodeId) (cause : GraphActivationCause) (causes : List GraphActivationCause)
    → In cause causes
    → Ensures
        (λ activation. activation ≡ record { node_id = target; cause = cause })
        (activate_target (target, causes))
unfolding activate_target new_frontier_activation
activated target cause [] i = absurd i
activated target cause (first ∷ []) (inl same) =
    Ensures-next _ _
      λ _. Ensures-ok _ (ap (λ (c : GraphActivationCause). activation_at target c) (sym same))
activated target cause (first ∷ []) (inr i) = absurd i
activated target cause (first ∷ second ∷ causes) i = Ensures-err _

has_some :
    (o : Option (List GraphActivationCause)) (cause : GraphActivationCause)
    → In cause (or_empty o)
    → (causes : List GraphActivationCause) × (o ≡ some causes) × In cause causes
has_some none cause i = absurd i
has_some (some causes) cause i = (causes, refl, i)

-- The activations of candidates that have a cause at a target hold that target with that cause.
collected :
    (d : Candidates) (target : GraphNodeId) (cause : GraphActivationCause)
    → Has d target cause
    → Ensures (In (record { node_id = target; cause = cause })) (collect activate_target d)
collected d target cause h =
    let (causes, found, i) = has_some (get d target) cause h in
    record {
      at = λ activations made.
          let (activation, e, j) =
            (collect-In activate_target (target, causes) d (get-In d target causes found)).at
              activations made in
          subst (λ a. In a activations) ((activated target cause causes i).at activation e) j;
    }

abbrev by_node_id : GraphFrontierActivation → GraphFrontierActivation → Ordering
by_node_id a b = string_ord.cmp a.node_id b.node_id

resolved_activation :
    (graph : CompiledGraph) (state : GraphRunState) (facts : RoutingFacts) (node_id : GraphNodeId)
    (contribution : GraphRoutingContribution) (targets : List GraphNodeId) (target : GraphNodeId)
    → In (node_id, contribution) (routing_contributions state.frontier)
    → successor_targets_for_reference graph (reference_of state node_id contribution) ≡ ok targets
    → In target targets
    → Ensures
        (λ (resolved : RoutingFacts).
          In
            (record {
              node_id = target;
              cause = routed_cause (reference_of state node_id contribution ∷ []) none;
            })
            resolved.activations)
        (resolve_control graph state facts)
unfolding resolve_control
resolved_activation graph state facts node_id contribution targets target i found j =
    Ensures-next _ _ λ _. Ensures-bind _ _ λ resolution made.
      Ensures-bind _ _ λ progression progressed. Ensures-bind _ _ λ activations activated_all.
        Ensures-ok _ (
          let stands =
            ((fold-Stands graph state (routing_contributions state.frontier) _).at resolution
              made).1 in
          let grows = (fold-Grows graph state _ _).at progression progressed in
          In-sort_by by_node_id _ activations (
            (collected progression.candidates target _
                (grows target _ (stands (node_id, contribution) i targets target found j))).at
              activations activated_all))

-- A frontier that is resolved loses no successor: for every contribution of a node of the frontier,
-- every compiled successor of its reference is activated, with that reference as its only cause.
pub resolve_control-activates :
    (graph : CompiledGraph) (state : GraphRunState) (facts resolved : RoutingFacts)
    (node_id : GraphNodeId) (contribution : GraphRoutingContribution) (targets : List GraphNodeId)
    (target : GraphNodeId)
    → resolve_control graph state facts ≡ ok resolved
    → In (node_id, contribution) (routing_contributions state.frontier)
    → successor_targets_for_reference graph (reference_of state node_id contribution) ≡ ok targets
    → In target targets
    → In
        (record {
          node_id = target;
          cause = routed_cause (reference_of state node_id contribution ∷ []) none;
        })
        resolved.activations
resolve_control-activates graph state facts resolved node_id contribution targets target h i found
      j =
    (resolved_activation graph state facts node_id contribution targets target i found j).at
      resolved h
