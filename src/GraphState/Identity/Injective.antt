-- ===== src/GraphState/Identity/Injective.antt =====
-- identity.py: what the derived identities determine of the identities that they are made of.
use motev.Base.{
  List, Option, String, [], ap, length, list_eq, map, nat_eq, nat_ord, option_eq, refl, some,
  string_eq, string_ord, sym, ℕ, ◌++◌, ◌∙◌, ◌∷◌, ◌≡◌,
}
use motev.GraphState.Identity.{
  GraphNodeId, GraphRunId, activation_eq, child_graph_run_id, graph_interrupt_id, join_eq,
  join_fields, occurrence_eq, occurrence_ord, reference_eq,
}
use motev.GraphState.Identity.Fields.{
  codes-inj, head_of, read_fields, read_fields-join_fields, read_number, read_number-decimal,
  tail_of,
}
use motev.GraphState.Identity.Text.{codes, decimal}

map-codes-inj : (xs ys : List String) → map codes xs ≡ map codes ys → xs ≡ ys
map-codes-inj [] [] e = refl
map-codes-inj [] (y ∷ ys) e = cc
map-codes-inj (x ∷ xs) [] e = cc
map-codes-inj (x ∷ xs) (y ∷ ys) e =
    let one : x ≡ y = codes-inj x y (head_of e) in
    let more : xs ≡ ys = map-codes-inj xs ys (tail_of e) in cc

join_fields-inj :
    (xs ys : List String) → length xs ≡ length ys → join_fields xs ≡ join_fields ys → xs ≡ ys
join_fields-inj xs ys same e = map-codes-inj xs ys (
    some_inj (
      sym (read_fields-join_fields xs)
      ∙ ap (λ text. read_fields (length xs) (codes text)) e
      ∙ ap (λ n. read_fields n (codes (join_fields ys))) same
      ∙ read_fields-join_fields ys))
  where
    some_inj : {a b : List (List ℕ)} → some a ≡ some b → a ≡ b
    some_inj h = cc

decimal-inj : (n m : ℕ) → decimal n ≡ decimal m → n ≡ m
decimal-inj n m e = number (
    sym (read_number-decimal n [])
    ∙ ap (λ text. read_number 0 (codes text ++ (58 ∷ []))) e
    ∙ read_number-decimal m [])
  where
    number : ◌≡◌ {A = Option (ℕ × List ℕ)} (some (n, [])) (some (m, [])) → n ≡ m
    number h = cc

-- Two node interrupts with the same identity are the same interrupt: the run, the superstep, the
-- node and the execution generation agree.
pub graph_interrupt_id-inj :
    (run_id run_id' : GraphRunId) (superstep superstep' : ℕ) (node_id node_id' : GraphNodeId)
    (generation generation' : ℕ)
    → graph_interrupt_id run_id superstep node_id generation
      ≡ graph_interrupt_id run_id' superstep' node_id' generation'
    → (run_id ≡ run_id')
      × (superstep ≡ superstep')
      × (node_id ≡ node_id')
      × (generation ≡ generation')
unfolding graph_interrupt_id
graph_interrupt_id-inj run_id run_id' superstep superstep' node_id node_id' generation generation'
      e =
    let all =
      join_fields-inj
        ("mote.graph-node-interrupt.v1"
          ∷ run_id
          ∷ decimal superstep
          ∷ node_id
          ∷ decimal generation
          ∷ [])
        ("mote.graph-node-interrupt.v1"
          ∷ run_id'
          ∷ decimal superstep'
          ∷ node_id'
          ∷ decimal generation'
          ∷ [])
        refl e in
    let r1 = tail_of all in
    let r2 = tail_of r1 in
    let r3 = tail_of r2 in
    let r4 = tail_of r3 in
    (
      head_of r1,
      decimal-inj superstep superstep' (head_of r2),
      head_of r3,
      decimal-inj generation generation' (head_of r4),
    )

-- Two child runs with the same identity belong to the same parent activation: the parent run, its
-- superstep and its node agree.
pub child_graph_run_id-inj :
    (run_id run_id' : GraphRunId) (superstep superstep' : ℕ) (node_id node_id' : GraphNodeId)
    → child_graph_run_id run_id superstep node_id ≡ child_graph_run_id run_id' superstep' node_id'
    → (run_id ≡ run_id') × (superstep ≡ superstep') × (node_id ≡ node_id')
unfolding child_graph_run_id
child_graph_run_id-inj run_id run_id' superstep superstep' node_id node_id' e =
    let all =
      join_fields-inj ("mote.child-graph-run.v1" ∷ run_id ∷ decimal superstep ∷ node_id ∷ [])
        ("mote.child-graph-run.v1" ∷ run_id' ∷ decimal superstep' ∷ node_id' ∷ []) refl e in
    let r1 = tail_of all in
    let r2 = tail_of r1 in
    (head_of r1, decimal-inj superstep superstep' (head_of r2), head_of (tail_of r2))
