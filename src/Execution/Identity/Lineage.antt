-- ===== src/Execution/Identity/Lineage.antt =====
-- identity.py: a child run's coordinate and the activation that it was derived from.
use motev.Base.{
  >>-eq-ok, Bool, Error, List, Result, [], any, ap, arith, bind-eq, drop_last, eq_of_ne_test, false,
  last?, list_eq, nat_eq, nat_ord, ne_test_of_eq, not, ok, option_eq, or-eq-false, raise_if,
  raise_if-eq-ok, refl, some, string_eq, string_ord, sym, ◌++◌, ◌/=◌, ◌>>=◌, ◌>>◌, ◌∙◌, ◌∷◌, ◌≡◌,
}
use motev.Execution.Identity.{
  ScopeRunCoordinate, child_scope_run, child_scope_run_for_activation, new_scope_run,
  new_stable_activation, parent_activation_for_child, scope_run_eq, stable_activation,
}
use motev.GraphState.Identity.{
  GraphActivationIdentity, activation_eq, child_graph_run_id, is_canonical_identity, join_eq,
  occurrence_eq, occurrence_ord, reference_eq,
}
use motev.GraphState.Identity.Injective.{child_graph_run_id-inj}

last?-append {ℓ} : {A : Type ℓ} (xs : List A) (x : A) → last? (xs ++ x ∷ []) ≡ some x
last?-append [] x = refl
last?-append (y ∷ []) x = refl
last?-append (y ∷ z ∷ xs) x = last?-append (z ∷ xs) x

drop_last-append {ℓ} : {A : Type ℓ} (xs : List A) (x : A) → drop_last (xs ++ x ∷ []) ≡ xs
drop_last-append [] x = refl
drop_last-append (y ∷ []) x = refl
drop_last-append (y ∷ z ∷ xs) x = ap (◌∷◌ y) (drop_last-append (z ∷ xs) x)

any-append {ℓ} :
    {A : Type ℓ} (p : A → Bool) (xs : List A) (x : A) → any p (xs ++ x ∷ []) ≡ false → p x ≡ false
unfolding any
any-append p [] x h = ground arith
any-append p (y ∷ xs) x h = any-append p xs x (or-eq-false (p y) _ h).1

raise_if_passes {ℓ} :
    {B : Type ℓ} (b : Bool) (e : Error) (k : Result B) {r : Result B}
    → b ≡ false
    → k ≡ r
    → (raise_if b e >> k) ≡ r
unfolding ◌>>=◌
raise_if_passes b e k h same = rw h same

-- What the derivation of a child coordinate has checked, and what it returns.
record Derived (scope_run : ScopeRunCoordinate) (parent : GraphActivationIdentity)
    (child : ScopeRunCoordinate) : Type 0 where
  same_run : parent.run_id ≡ scope_run.graph_run_id
  canonical_node : not (is_canonical_identity parent.node_id) ≡ false
  is_child : child ≡ record {
    scope = scope_run.scope ++ parent.node_id ∷ [];
    graph_run_id = child_graph_run_id scope_run.graph_run_id parent.superstep parent.node_id;
  }

derivation :
    (scope_run : ScopeRunCoordinate) (parent : GraphActivationIdentity) (child : ScopeRunCoordinate)
    → child_scope_run_for_activation scope_run parent ≡ ok child
    → Derived scope_run parent child
unfolding child_scope_run_for_activation child_scope_run new_scope_run
derivation scope_run parent child h =
    let (first, h1) = >>-eq-ok (raise_if (parent.run_id /= scope_run.graph_run_id) _) _ h in
    let (second, h2) = >>-eq-ok (raise_if _ _) _ h1 in
    record {
      same_run = eq_of_ne_test _ _ (raise_if-eq-ok _ _ first);
      canonical_node =
          any-append _ scope_run.scope parent.node_id
            (or-eq-false _ _ (raise_if-eq-ok _ _ second)).0;
      is_child = value_of h2;
    }
  where
    value_of : {a b : ScopeRunCoordinate} → ok a ≡ ok b → b ≡ a
    value_of e = cc

-- The lookup key of a parent activation is recovered from the coordinate of the child run that was
-- derived from it, when the parent's own coordinate passes its checks.
pub parent_activation_for_child-child_scope_run_for_activation :
    (scope_run child : ScopeRunCoordinate) (parent : GraphActivationIdentity)
    → new_scope_run scope_run.scope scope_run.graph_run_id ≡ ok scope_run
    → child_scope_run_for_activation scope_run parent ≡ ok child
    → parent_activation_for_child child parent
      ≡ ok
          (record { scope_run = scope_run; superstep = parent.superstep; node_id = parent.node_id })
unfolding parent_activation_for_child stable_activation new_stable_activation
parent_activation_for_child-child_scope_run_for_activation scope_run child parent valid h =
    let d = derivation scope_run parent child h in
    let scope_of : child.scope ≡ scope_run.scope ++ parent.node_id ∷ [] =
      ap (λ (c : ScopeRunCoordinate). c.scope) d.is_child in
    raise_if_passes _ _ _
      (ne_test_of_eq _ _ (ap last? scope_of ∙ last?-append scope_run.scope parent.node_id))
      (bind-eq (new_scope_run (drop_last child.scope) parent.run_id) _
        (ap (λ scope. new_scope_run scope parent.run_id)
            (ap drop_last scope_of ∙ drop_last-append scope_run.scope parent.node_id)
          ∙ ap (new_scope_run scope_run.scope) d.same_run
          ∙ valid)
        (bind-eq (child_scope_run_for_activation scope_run parent) _ h (
          raise_if_passes _ _ _ (ne_test_of_eq child child refl) (
            raise_if_passes _ _ _ (ne_test_of_eq _ _ d.same_run)
              (raise_if_passes _ _ _ d.canonical_node refl)))))

-- Two activations with the same child coordinate are the same activation of the same scoped run:
-- scope, run, superstep and node agree.
pub child_scope_run_for_activation-inj :
    (first second child : ScopeRunCoordinate) (a b : GraphActivationIdentity)
    → child_scope_run_for_activation first a ≡ ok child
    → child_scope_run_for_activation second b ≡ ok child
    → (first ≡ second) × (a ≡ b)
child_scope_run_for_activation-inj first second child a b h k =
    let d = derivation first a child h in
    let e = derivation second b child k in
    let same = sym d.is_child ∙ e.is_child in
    let scopes = ap (λ (c : ScopeRunCoordinate). c.scope) same in
    let (runs, supersteps, nodes) =
      child_graph_run_id-inj _ _ _ _ _ _ (ap (λ (c : ScopeRunCoordinate). c.graph_run_id) same) in
    let prefixes : first.scope ≡ second.scope =
      sym (drop_last-append first.scope a.node_id)
      ∙ ap drop_last scopes
      ∙ drop_last-append second.scope b.node_id in
    let a_run : a.run_id ≡ b.run_id = d.same_run ∙ runs ∙ sym e.same_run in
    (ground arith, ground arith)
