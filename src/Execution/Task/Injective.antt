-- ===== src/Execution/Task/Injective.antt =====
-- task.py: what the identity of a task determines.
use mathlib.Core.List.{append-nil}
use motev.Base.{
  Option, [], ap, list_eq, nat_eq, nat_ord, option_eq, some, string_eq, string_ord, sym, ℕ, ◌++◌,
  ◌∙◌, ◌∷◌, ◌≡◌,
}
use motev.Execution.Task.{task_eq, task_identity}
use motev.GraphState.Identity.{
  GraphNodeId, GraphRunId, activation_eq, join_eq, occurrence_eq, occurrence_ord, reference_eq,
}
use motev.GraphState.Identity.Fields.{
  codes-append, codes-inj, read_field, read_field-identity_field, read_number, read_number-decimal,
  tail_of,
}
use motev.GraphState.Identity.Text.{codes, decimal, identity_field}

codes-task_identity :
    (run_id : GraphRunId) (superstep : ℕ) (node_id : GraphNodeId)
    → codes (task_identity run_id superstep node_id)
      ≡ codes (identity_field run_id)
        ++ (58 ∷ (codes (decimal superstep) ++ (58 ∷ (codes (identity_field node_id) ++ []))))
unfolding task_identity
codes-task_identity run_id superstep node_id =
    codes-append (identity_field run_id) _
    ∙ ap (λ cs. codes (identity_field run_id) ++ cs)
        (codes-append ":" _
          ∙ ap (◌∷◌ 58) (
              codes-append (decimal superstep) _
              ∙ ap (λ cs. codes (decimal superstep) ++ cs)
                  (codes-append ":" (identity_field node_id)
                    ∙ ap (◌∷◌ 58) (sym (append-nil (codes (identity_field node_id)))))))

pair_of {ℓ κ} :
    {A : Type ℓ} {B : Type κ} {a a' : A} {b b' : B}
    → ◌≡◌ {A = Option (A × B)} (some (a, b)) (some (a', b'))
    → (a ≡ a') × (b ≡ b')
pair_of h = (cc, cc)

-- Two tasks with the same identity are the same task: the run, the superstep and the node agree.
pub task_identity-inj :
    (run_id run_id' : GraphRunId) (superstep superstep' : ℕ) (node_id node_id' : GraphNodeId)
    → task_identity run_id superstep node_id ≡ task_identity run_id' superstep' node_id'
    → (run_id ≡ run_id') × (superstep ≡ superstep') × (node_id ≡ node_id')
task_identity-inj run_id run_id' superstep superstep' node_id node_id' e =
    let all =
      sym (codes-task_identity run_id superstep node_id)
      ∙ ap codes e
      ∙ codes-task_identity run_id' superstep' node_id' in
    let (runs, more) = pair_of (
      sym (read_field-identity_field run_id _)
      ∙ ap read_field all
      ∙ read_field-identity_field run_id' _) in
    let (supersteps, last) = pair_of (
      sym (read_number-decimal superstep _)
      ∙ ap (read_number 0) (tail_of more)
      ∙ read_number-decimal superstep' _) in
    let (nodes, _) = pair_of (
      sym (read_field-identity_field node_id [])
      ∙ ap read_field last
      ∙ read_field-identity_field node_id' []) in
    (codes-inj run_id run_id' runs, supersteps, codes-inj node_id node_id' nodes)
