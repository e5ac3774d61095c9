-- ===== src/GraphState/Model.antt =====
-- mote-kernel/src/mote_kernel/state/graph_state/model.py: the record of one graph run.
use motev.Base.{
  Bool, Eq, List, Option, Ordering, Result, String, err, false, if◌then◌else◌, is_empty, is_none,
  is_some, length, list_discrete, list_eq, ltb, nat_eq, nat_ord, none, not, ok, on_value_error,
  option_discrete, option_eq, raise_if, some, string_discrete, string_eq, string_ord, true,
  type_error, value_error, ℕ, ℕ_discrete, ◌&&◌, ◌+◌, ◌/=◌, ◌==◌, ◌>>=◌, ◌>>◌, ◌||◌,
}
use motev.GraphState.FrontierModel.{
  GraphFrontierState, GraphResumeInputCodec, bytes_discrete, cause_eq, codec_discrete,
  frontier_discrete, frontier_status_eq,
}
use motev.GraphState.Identity.{
  ActivationReference, Bytes, GraphActivationIdentity, GraphDefinitionId, GraphDefinitionVersion,
  GraphExecutionAttemptId, GraphJoinOccurrenceIdentity, GraphRouteId, GraphRunId,
  activation_discrete, activation_eq, compare_references, is_canonical_identity, join_eq,
  new_activation, new_reference, occurrence_discrete, occurrence_eq, occurrence_ord,
  reference_discrete, reference_eq,
}
use motev.GraphState.Identity.Text.{codes, strip}
use motev.GraphState.ResourceModel.{ResourceSnapshot, snapshot_discrete, snapshot_eq}

pub record GraphConfigCursor : Type 0 where
  pub definition_id : GraphDefinitionId
  pub definition_version : GraphDefinitionVersion
  pub revision : ℕ
  pub digest : Option String

-- The digest is absent, or not empty and equal to its `strip()`.
unfoldable pub is_digest_ok : Option String → Bool
is_digest_ok none = true
is_digest_ok (some digest) = not (is_empty (codes digest)) && codes digest == strip (codes digest)

-- `GraphConfigCursor(...)`: construction runs `__post_init__`.
unfoldable pub new_cursor :
    GraphDefinitionId → GraphDefinitionVersion → ℕ → Option String → Result GraphConfigCursor
new_cursor definition_id definition_version revision digest = do
  raise_if (not (is_canonical_identity definition_id))
      (value_error "config definition identity must be canonical")
  raise_if (ltb definition_version 1) (value_error "config definition version must be positive")
  raise_if (ltb revision 1) (value_error "config revision must be positive")
  raise_if (not (is_digest_ok digest))
      (value_error "config digest must be a non-empty string when present")
  raise_if (ltb 1 revision && is_none digest)
      (value_error "a successor Config revision requires its snapshot digest")
  ok (record {
    definition_id = definition_id;
    definition_version = definition_version;
    revision = revision;
    digest = digest;
  })

-- `GraphConfigCursor.admit`
unfoldable pub admit_cursor : GraphConfigCursor → Result GraphConfigCursor
unfolding new_cursor
admit_cursor c =
    on_value_error (new_cursor c.definition_id c.definition_version c.revision c.digest)
      (λ m. type_error "Config cursor is malformed")

-- Both digests are there and differ.
unfoldable pub digests_conflict : Option String → Option String → Bool
digests_conflict none candidate = false
digests_conflict (some d) none = false
digests_conflict (some d) (some e) = e /= d

-- The rule of `GraphConfigCursor.transition_to` once the candidate is admitted.
unfoldable pub transition_cursor : GraphConfigCursor → GraphConfigCursor → Result GraphConfigCursor
unfolding digests_conflict
transition_cursor c candidate = do
  raise_if
      (candidate.definition_id /= c.definition_id
        || candidate.definition_version /= c.definition_version)
      (value_error "node settlement cannot change the Config identity or version")
  if candidate.revision == c.revision
      then (if digests_conflict c.digest candidate.digest
          then err (value_error "node settlement Config digest conflicts at the same revision")
          else if is_none c.digest && is_some candidate.digest
          then ok candidate
          else ok c)
      else if candidate.revision == c.revision + 1
      then ok candidate
      else if ltb candidate.revision c.revision
      then err (value_error "node settlement Config revision cannot move backwards")
      else err (value_error "node settlement Config revision must advance exactly once")

-- `GraphConfigCursor.transition_to`
unfoldable pub transition_to : GraphConfigCursor → GraphConfigCursor → Result GraphConfigCursor
unfolding admit_cursor transition_cursor
transition_to c candidate = do admitted ← admit_cursor candidate; transition_cursor c admitted

-- `GraphConfigCursor.admit_history`
unfoldable pub admit_history : GraphConfigCursor → GraphConfigCursor → Result (Unit {0})
unfolding admit_cursor
admit_history c candidate = do
  reference ← admit_cursor candidate
  raise_if
      (reference.definition_id /= c.definition_id
        || reference.definition_version /= c.definition_version)
      (value_error "historical Config must belong to the same definition and version")
  raise_if (ltb c.revision reference.revision)
      (value_error "historical Config cannot be newer than its authoritative state")
  raise_if (reference.revision == c.revision && reference.digest /= c.digest)
      (value_error "historical Config digest must match its authoritative revision")

pub data GraphRunStatus : Type 0 where
  running completed failed aborted : GraphRunStatus

unfoldable pub run_status_discrete : Discrete GraphRunStatus
run_status_discrete = hlevel

instance abbrev pub run_status_eq : Eq GraphRunStatus
run_status_eq = record { dec = run_status_discrete }

pub record GraphAbort : Type 0 where
  pub reason : String

pub record GraphExecutionToken : Type 0 where
  pub generation : ℕ
  pub attempt_id : GraphExecutionAttemptId

unfoldable pub token_discrete : Discrete GraphExecutionToken
unfolding string_discrete ℕ_discrete
token_discrete = hlevel (string_discrete, ℕ_discrete)

instance abbrev pub token_eq : Eq GraphExecutionToken
token_eq = record { dec = token_discrete }

-- `GraphExecutionToken.admit`
unfoldable pub admit_token : GraphExecutionToken → Result GraphExecutionToken
admit_token token = do
  raise_if (ltb token.generation 1)
      (value_error "execution token generation must be an exact positive integer")
  raise_if (not (is_canonical_identity token.attempt_id))
      (value_error "execution attempt identity must be canonical")
  ok token

pub record GraphEvidenceCommitment : Type 0 where
  pub digest : Bytes

-- `GraphEvidenceCommitment.admit`: a SHA-256 digest has 32 bytes.
unfoldable pub admit_evidence : GraphEvidenceCommitment → Result GraphEvidenceCommitment
admit_evidence commitment = do
  raise_if (length commitment.digest /= 32) (value_error "graph evidence commitment is malformed")
  ok commitment

-- `admit(evidence) if evidence is not None else None`
unfoldable pub admit_optional_evidence :
    Option GraphEvidenceCommitment → Result (Option GraphEvidenceCommitment)
unfolding admit_evidence
admit_optional_evidence none = ok none
admit_optional_evidence (some commitment) = do c ← admit_evidence commitment; ok (some c)

pub record GraphPublicationSettlement : Type 0 where
  pub reference : ActivationReference
  pub commit_revision : ℕ
  pub execution : GraphExecutionToken
  pub evidence : Option GraphEvidenceCommitment

-- `GraphPublicationSettlement.admit`
unfoldable pub admit_publication : GraphPublicationSettlement → Result GraphPublicationSettlement
unfolding new_activation new_reference admit_token admit_optional_evidence
admit_publication settlement =
    on_value_error
      (do
        activation ←
            new_activation settlement.reference.activation.run_id
              settlement.reference.activation.superstep settlement.reference.activation.node_id
        reference ← new_reference activation settlement.reference.route
        raise_if (ltb settlement.commit_revision 1)
            (value_error "publication settlement revision must be positive")
        execution ← admit_token settlement.execution
        evidence ← admit_optional_evidence settlement.evidence
        ok (record {
          reference = reference;
          commit_revision = settlement.commit_revision;
          execution = execution;
          evidence = evidence;
        }))
      (λ m. value_error "graph publication settlement is malformed")

-- The order of `GraphPublicationSettlement.canonical_key`.
unfoldable pub compare_publications :
    GraphPublicationSettlement → GraphPublicationSettlement → Ordering
unfolding compare_references
compare_publications a b = compare_references a.reference b.reference

pub record GraphExecutionLease : Type 0 where
  pub token : GraphExecutionToken

pub record GraphJoinProgress : Type 0 where
  pub occurrence : GraphJoinOccurrenceIdentity
  pub arrived : List ActivationReference

-- `__post_init__` sets an omitted Config identity to the definition's at once, so the two
-- `config_definition_` fields always hold a value.
pub record GraphRunState : Type 0 where
  pub run_id : GraphRunId
  pub definition_id : GraphDefinitionId
  pub definition_version : GraphDefinitionVersion
  pub status : GraphRunStatus
  pub superstep : ℕ
  pub frontier : GraphFrontierState
  pub execution_sequence : ℕ
  pub resume_input_codec : Option GraphResumeInputCodec
  pub join_progress : List GraphJoinProgress
  pub graph_input_evidence : Option GraphEvidenceCommitment
  pub settled_publications : List GraphPublicationSettlement
  pub resources : Option ResourceSnapshot
  pub execution : Option GraphExecutionLease
  pub abort : Option GraphAbort
  pub parent : Option GraphActivationIdentity
  pub revision : ℕ
  pub completion_route : Option GraphRouteId
  pub config_revision : ℕ
  pub config_definition_id : GraphDefinitionId
  pub config_definition_version : GraphDefinitionVersion
  pub config_digest : Option String

-- The property `config_cursor`.
unfoldable pub config_cursor : GraphRunState → Result GraphConfigCursor
unfolding new_cursor
config_cursor state =
    new_cursor state.config_definition_id state.config_definition_version state.config_revision
      state.config_digest

unfoldable pub evidence_discrete : Discrete GraphEvidenceCommitment
unfolding bytes_discrete
evidence_discrete = hlevel bytes_discrete

unfoldable pub publication_discrete : Discrete GraphPublicationSettlement
unfolding reference_discrete token_discrete evidence_discrete option_discrete ℕ_discrete
publication_discrete =
    hlevel (reference_discrete, token_discrete, option_discrete evidence_discrete, ℕ_discrete)

unfoldable pub progress_discrete : Discrete GraphJoinProgress
unfolding occurrence_discrete reference_discrete list_discrete
progress_discrete = hlevel (occurrence_discrete, list_discrete reference_discrete)

instance abbrev pub progress_eq : Eq GraphJoinProgress
progress_eq = record { dec = progress_discrete }

unfoldable pub lease_discrete : Discrete GraphExecutionLease
unfolding token_discrete
lease_discrete = hlevel token_discrete

unfoldable pub abort_discrete : Discrete GraphAbort
unfolding string_discrete
abort_discrete = hlevel string_discrete

unfoldable pub state_discrete : Discrete GraphRunState
unfolding run_status_discrete frontier_discrete codec_discrete progress_discrete evidence_discrete
    publication_discrete snapshot_discrete lease_discrete abort_discrete activation_discrete
state_discrete = hlevel (
  string_discrete,
  ℕ_discrete,
  run_status_discrete,
  frontier_discrete,
  option_discrete codec_discrete,
  list_discrete progress_discrete,
  option_discrete evidence_discrete,
  list_discrete publication_discrete,
  option_discrete snapshot_discrete,
  option_discrete lease_discrete,
  option_discrete abort_discrete,
  option_discrete activation_discrete,
  option_discrete string_discrete,
)

instance abbrev pub state_eq : Eq GraphRunState
state_eq = record { dec = state_discrete }
