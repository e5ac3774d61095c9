-- ===== src/GraphState/Identity/Fields.antt =====
-- identity.py: reading the length-prefixed fields of `graph_interrupt_id` and `child_graph_run_id`
-- back from the text.
use Prim.Native.Char.{code}
use Prim.Native.String.{count}
use mathlib.Core.List.{append_assoc}
use text.Mathlib.TextEquality.{Char-path}
use text.Mathlib.TextLemmas.{nil-append, cons-append, length-nil, length-cons}
use motev.Base.{
  Bool-cases, List, Option, String, [], ap, arith, drop, if◌then◌else◌, inl, inr, leb, length,
  list_eq, ltb, ltb→le, ltb→lt, map, nat_eq, nat_ord, none, option_eq, refl, some, string_eq,
  string_ord, suc, sym, take, zero, ℕ, ℕ_discrete, ◌%◌, ◌&&◌, ◌*◌, ◌++◌, ◌+◌, ◌-◌, ◌/◌, ◌<◌, ◌==◌,
  ◌∙◌, ◌∷◌, ◌≡◌, ◌≤◌,
}
use motev.GraphState.Identity.{
  activation_eq, join_eq, join_fields, occurrence_eq, occurrence_ord, reference_eq,
}
use motev.GraphState.Identity.Text.{
  codes, decimal, decimal_within, digit, identity_field, str_append,
}

-- The digits up to a colon as a number, behind the digits read so far, and what follows the colon.
abbrev pub read_number : ℕ → List ℕ → Option (ℕ × List ℕ)
read_number n [] = none
read_number n (c ∷ cs) =
    let further = read_number (n * 10 + (c - 48)) cs in
    if c == 58 then some (n, cs) else if leb 48 c && leb c 57 then further else none

unfoldable field_of : Option (ℕ × List ℕ) → Option (List ℕ × List ℕ)
field_of none = none
field_of (some found) = some (take found.0 found.1, drop found.0 found.1)

-- One field, and what follows it.
unfoldable pub read_field : List ℕ → Option (List ℕ × List ℕ)
unfolding field_of
read_field cs = field_of (read_number 0 cs)

unfoldable field_before : List ℕ → Option (List (List ℕ)) → Option (List (List ℕ))
field_before value none = none
field_before value (some values) = some (value ∷ values)

unfoldable fields_after :
    (List ℕ → Option (List (List ℕ))) → Option (List ℕ × List ℕ) → Option (List (List ℕ))
unfolding field_before
fields_after further none = none
fields_after further (some found) = field_before found.0 (further found.1)

-- A number of fields.
unfoldable pub read_fields : ℕ → List ℕ → Option (List (List ℕ))
unfolding fields_after read_field
read_fields zero cs = some []
read_fields (suc n) cs = fields_after (read_fields n) (read_field cs)

pub codes-append : (s t : String) → codes (str_append s t) ≡ codes s ++ codes t
unfolding str_append
codes-append String.[] t = ap codes (nil-append t)
codes-append (String.◌∷◌ c s) t =
    ap codes (cons-append c s t) ∙ ap (◌∷◌ (code c)) (codes-append s t)

length-codes : (s : String) → length (codes s) ≡ count s
length-codes String.[] = sym length-nil
length-codes (String.◌∷◌ c s) = ap suc (length-codes s) ∙ sym (length-cons c s)

pub head_of {ℓ} : {A : Type ℓ} {a b : A} {xs ys : List A} → (a ∷ xs) ≡ (b ∷ ys) → a ≡ b
head_of h = cc

pub tail_of {ℓ} : {A : Type ℓ} {a b : A} {xs ys : List A} → (a ∷ xs) ≡ (b ∷ ys) → xs ≡ ys
tail_of h = cc

pub codes-inj : (s t : String) → codes s ≡ codes t → s ≡ t
codes-inj String.[] String.[] e = refl
codes-inj String.[] (String.◌∷◌ c t) e = cc
codes-inj (String.◌∷◌ c s) String.[] e = cc
codes-inj (String.◌∷◌ c s) (String.◌∷◌ d t) e =
    let same : c ≡ d = Char-path c d (head_of e) in
    let rest : s ≡ t = codes-inj s t (tail_of e) in cc

codes-digit : (d : ℕ) → d < 10 → codes (digit d) ≡ (48 + d) ∷ []
unfolding digit ℕ_discrete
codes-digit zero h = refl
codes-digit (suc zero) h = refl
codes-digit (suc (suc zero)) h = refl
codes-digit (suc (suc (suc zero))) h = refl
codes-digit (suc (suc (suc (suc zero)))) h = refl
codes-digit (suc (suc (suc (suc (suc zero))))) h = refl
codes-digit (suc (suc (suc (suc (suc (suc zero)))))) h = refl
codes-digit (suc (suc (suc (suc (suc (suc (suc zero))))))) h = refl
codes-digit (suc (suc (suc (suc (suc (suc (suc (suc zero)))))))) h = refl
codes-digit (suc (suc (suc (suc (suc (suc (suc (suc (suc zero))))))))) h = refl
codes-digit (suc (suc (suc (suc (suc (suc (suc (suc (suc (suc d)))))))))) h = absurd (omega arith)

read_number-digit :
    (n d m : ℕ) (rest : List ℕ)
    → d < 10
    → n * 10 + d ≡ m
    → read_number n (codes (digit d) ++ rest) ≡ read_number m rest
read_number-digit n d m rest h e =
    rw (codes-digit d h) (step (ap (λ k. read_number k rest) (omega arith)))
  where
    step :
        {x : Option (ℕ × List ℕ)}
        → read_number (n * 10 + (48 + d - 48)) rest ≡ x
        → read_number n ((48 + d) ∷ rest) ≡ x
    step e = ground arith

-- The digits of a number are read as that number.
read_number-decimal_within :
    (rounds n : ℕ) (rest : List ℕ)
    → n ≤ rounds
    → read_number 0 (codes (decimal_within rounds n) ++ rest) ≡ read_number n rest
unfolding decimal_within
read_number-decimal_within zero n rest h = read_number-digit 0 n n rest (omega arith) (omega arith)
read_number-decimal_within (suc rounds) n rest h = elim (Bool-cases (ltb n 10)) [
  | inl small ↦ rw small (read_number-digit 0 n n rest (ltb→lt n 10 small) (omega arith))
  | inr big ↦
      rw
        (
          big,
          codes-append (decimal_within rounds (n / 10)) (digit (n % 10)),
          append_assoc (codes (decimal_within rounds (n / 10))) (codes (digit (n % 10))) rest,
        )
        (read_number-decimal_within rounds (n / 10) (codes (digit (n % 10)) ++ rest)
            (within (ltb→le n 10 big))
          ∙ read_number-digit (n / 10) (n % 10) n rest (omega arith) (omega arith))
]
  where
    within : 10 ≤ n → n / 10 ≤ rounds
    within big = omega arith

take-append {ℓ} : {A : Type ℓ} (xs ys : List A) → take (length xs) (xs ++ ys) ≡ xs
take-append [] ys = refl
take-append (x ∷ xs) ys = ap (◌∷◌ x) (take-append xs ys)

drop-append {ℓ} : {A : Type ℓ} (xs ys : List A) → drop (length xs) (xs ++ ys) ≡ ys
drop-append [] ys = refl
drop-append (x ∷ xs) ys = drop-append xs ys

read_field_lem :
    (n : ℕ) (cs value rest : List ℕ)
    → read_number 0 cs ≡ some (n, value ++ rest)
    → n ≡ length value
    → read_field cs ≡ some (value, rest)
unfolding read_field field_of
read_field_lem n cs value rest e same =
    ap field_of e
    ∙ ap (λ k. field_of (some (k, value ++ rest))) same
    ∙ ap some (
        ap (λ v. (v, drop (length value) (value ++ rest))) (take-append value rest)
        ∙ ap (λ v. (value, v)) (drop-append value rest))

codes-identity_field :
    (value : String) (rest : List ℕ)
    → codes (identity_field value) ++ rest
      ≡ codes (decimal (count value)) ++ (58 ∷ codes value ++ rest)
unfolding identity_field
codes-identity_field value rest =
    ap (λ cs. cs ++ rest)
      (codes-append (decimal (count value)) (str_append ":" value)
        ∙ ap (λ cs. codes (decimal (count value)) ++ cs) (codes-append ":" value))
    ∙ append_assoc (codes (decimal (count value))) (58 ∷ codes value) rest

pub read_number-decimal :
    (n : ℕ) (rest : List ℕ) → read_number 0 (codes (decimal n) ++ (58 ∷ rest)) ≡ some (n, rest)
unfolding decimal ℕ_discrete
read_number-decimal n rest = read_number-decimal_within n n (58 ∷ rest) (omega arith)

pub read_field-identity_field :
    (value : String) (rest : List ℕ)
    → read_field (codes (identity_field value) ++ rest) ≡ some (codes value, rest)
read_field-identity_field value rest =
    read_field_lem (count value) (codes (identity_field value) ++ rest) (codes value) rest
      (ap (read_number 0) (codes-identity_field value rest)
        ∙ read_number-decimal (count value) (codes value ++ rest))
      (sym (length-codes value))

-- Reading as many fields as were joined gives the texts that were joined.
pub read_fields-join_fields :
    (values : List String)
    → read_fields (length values) (codes (join_fields values)) ≡ some (map codes values)
unfolding join_fields read_fields fields_after field_before
read_fields-join_fields [] = refl
read_fields-join_fields (value ∷ values) =
    ap (fields_after (read_fields (length values))) (
      ap read_field (codes-append (identity_field value) (join_fields values))
      ∙ read_field-identity_field value (codes (join_fields values)))
    ∙ ap (field_before (codes value)) (read_fields-join_fields values)
