-- ===== src/GraphState/Scenarios/Witnesses.antt =====
-- The theorems on the reducer and on the resources, applied to the run and the snapshot of the tests.
use motev.Base.{
  [], arith, list_eq, nat_eq, nat_ord, none, ok, option_eq, refl, some, string_eq, string_ord, true,
  ◌+◌, ◌∷◌, ◌≡◌, ◌≢◌, ◌⊎◌,
}
use motev.GraphState.Command.{abort_run, claim, expected_revision_of, fence, settle, transition}
use motev.GraphState.FrontierModel.{
  GraphFrontierStatus, cause_eq, continue_routing, executable, frontier_status, frontier_status_eq,
  pending, settlements_status, succeeded, use_step_request_input,
}
use motev.GraphState.FrontierModel.Status.{Disposition, settlements_status-Disposition}
use motev.GraphState.Identity.{
  activation_eq, is_canonical_identity, join_eq, occurrence_eq, occurrence_ord, reference_eq,
}
use motev.GraphState.Model.{progress_eq, run_status_eq, running, state_eq, token_eq}
use motev.GraphState.Reducer.{admit_graph_run_confirmation, reduce_graph_run}
use motev.GraphState.Reducer.Confirmation.{Confirmed, admit-Confirmed}
use motev.GraphState.Reducer.Evolution.{Moves, reduce-Moves}
use motev.GraphState.Reducer.Leases.{
  LeaseMove, Retired, here, next, reduce-LeaseMove, stale_token_refused,
}
use motev.GraphState.Reducer.Ledger.{Adds, birth, reduce-Adds, reduce-ledger_same}
use motev.GraphState.Reducer.Claiming.{claim_accepted}
use motev.GraphState.Reducer.Progress.{Stopped, abort_accepted, can_stop, fence_accepted}
use motev.GraphState.Reducer.Settlement.{Settles, reduce-Settles}
use motev.GraphState.Reducer.Terminal.{Ends, reduce-Ends, terminal_refused}
use motev.GraphState.ResourceModel.{snapshot_eq}
use motev.GraphState.ResourceReducer.Admission.{first_admitted}
use motev.GraphState.Scenarios.{
  abort_command, admitted_with, claim_command, contended, fence_command, run_aborted, run_claimed,
  run_fenced, run_half, run_started, settle_a, token_x,
}
use motev.GraphState.Scenarios.Runs.{abort_runs, claim_runs, contended_runs, evaluate, settle_runs}
use motev.GraphState.Validation.Run.{validate_graph_run_state}

run_claimed_valid : validate_graph_run_state run_claimed ≡ ok tt
unfolding evaluate
run_claimed_valid = refl

run_started_valid : validate_graph_run_state run_started ≡ ok tt
unfolding evaluate
run_started_valid = refl

run_fenced_valid : validate_graph_run_state run_fenced ≡ ok tt
unfolding evaluate
run_fenced_valid = refl

canonical_stop : is_canonical_identity "stop" ≡ true
unfolding evaluate
canonical_stop = refl

canonical_x : is_canonical_identity "x" ≡ true
unfolding evaluate
canonical_x = refl

started_executable : frontier_status run_started.frontier ≡ ok executable
unfolding evaluate
started_executable = refl

can_stop_example : Stopped run_claimed run_claimed.execution "stop"
can_stop_example = can_stop run_claimed "stop" run_claimed_valid refl canonical_stop

stale_x : Retired token_x run_fenced
stale_x = record { issued = omega arith; not_held = λ h. cc }

stale_token_refused_example :
    (reduce_graph_run (some run_aborted) (transition (settle settle_a)) ≢ ok run_half)
    × (reduce_graph_run (some run_aborted) (transition (fence fence_command)) ≢ ok run_half)
stale_token_refused_example =
    stale_token_refused token_x run_fenced run_aborted run_half (abort_run abort_command ∷ [])
      settle_a fence_command stale_x (next here abort_runs) refl refl

reduce-Moves_example :
    Moves run_claimed run_half
    × (expected_revision_of (settle settle_a) ≡ run_claimed.revision)
    × (run_half.revision ≡ run_claimed.revision + 1)
reduce-Moves_example = reduce-Moves run_claimed (settle settle_a) run_half settle_runs

reduce-Settles_example : Settles run_claimed settle_a.outcome run_half
reduce-Settles_example = reduce-Settles run_claimed run_half settle_a settle_runs

reduce-Adds_example :
    Adds
      (birth run_claimed settle_a "a" continue_routing run_half.revision)
      run_claimed.settled_publications
      run_half.settled_publications
reduce-Adds_example =
    reduce-Adds run_claimed run_half settle_a "a" continue_routing refl settle_runs

reduce-ledger_same_example : run_claimed.settled_publications ≡ run_started.settled_publications
reduce-ledger_same_example =
    reduce-ledger_same run_started run_claimed (claim claim_command) refl claim_runs

first_admitted_example :
    ((admitted_with "a" ("p" ∷ [])).acquired ≡ (admitted_with "a" ("p" ∷ [])).required)
    × ((admitted_with "a" ("p" ∷ [])).waiting_for ≡ none)
first_admitted_example =
    first_admitted contended (admitted_with "a" ("p" ∷ [])) _ contended_runs refl

claim_confirmed :
    admit_graph_run_confirmation (some run_started) (transition (claim claim_command)) run_claimed
    ≡ ok run_claimed
unfolding evaluate
claim_confirmed = refl

admit-Confirmed_example :
    Confirmed (some run_started) (transition (claim claim_command)) run_claimed run_claimed
admit-Confirmed_example =
    admit-Confirmed (some run_started) (transition (claim claim_command)) run_claimed run_claimed
      claim_confirmed

terminal_refused_example :
    reduce_graph_run (some run_aborted) (transition (claim claim_command)) ≢ ok run_claimed
terminal_refused_example =
    terminal_refused run_aborted run_claimed (transition (claim claim_command)) (λ e. cc)

reduce-Ends_example :
    (run_fenced.status ≡ running)
    × ((run_aborted.status ≡ running) ⊎ Ends (abort_run abort_command) run_aborted.status)
reduce-Ends_example = reduce-Ends run_fenced run_aborted (abort_run abort_command) abort_runs

reduce-LeaseMove_example : LeaseMove run_started run_claimed
reduce-LeaseMove_example = reduce-LeaseMove run_started (claim claim_command) run_claimed claim_runs

fence_accepted_example :
    reduce_graph_run (some run_claimed) (transition (fence fence_command)) ≡ ok run_fenced
fence_accepted_example = fence_accepted run_claimed fence_command run_claimed_valid refl refl

claim_accepted_example :
    reduce_graph_run (some run_started) (transition (claim claim_command)) ≡ ok run_claimed
claim_accepted_example =
    claim_accepted run_started claim_command run_started_valid refl refl started_executable refl
      refl canonical_x

abort_accepted_example :
    reduce_graph_run (some run_fenced) (transition (abort_run abort_command)) ≡ ok run_aborted
abort_accepted_example =
    abort_accepted run_fenced abort_command run_fenced_valid refl refl refl canonical_stop

settlements_status-Disposition_example :
    (d : GraphFrontierStatus) × (settlements_status
        (succeeded continue_routing ∷ pending use_step_request_input ∷ [])
      ≡ ok d)
    × Disposition (succeeded continue_routing ∷ pending use_step_request_input ∷ []) d
settlements_status-Disposition_example =
    settlements_status-Disposition (succeeded continue_routing)
      (pending use_step_request_input ∷ [])
