-- ===== src/Execute/Dynamic/Operands.antt =====
-- The binds of one dynamic operand: where it is put, and that a second site finds it.
use mathlib.Core.List.{append-nil}
use dsql.Prelude.{
  ◌+◌, String, Bool, true, false, ◌&&◌, Option, none, some, List, [], ◌∷◌, ◌++◌, length, get_elem?,
  ◌≡◌, ◌≤◌, refl, arith, get_elem?-lt, get_elem?-append_left, get_elem?-append_length, eqb, eqb_iff,
  Bool-cases, Option-cases, inl, inr, ◌⊎◌, Eq, ◌==◌, and_iff, string_eq, option_beq, format,
  decimal,
}
use dsql.Metadata.Wire.{wire_eq}
use dsql.Metadata.Operation.{DynamicInputField}
use dsql.Execute.Error.{ok}
use dsql.Execute.Runtime.{Runtime}
use dsql.Execute.Emit.{BoundParameter, Operands, ◌>>=◌, continue-eq-ok}
use dsql.Execute.Emit.Steady.{with_more, Steady}
use dsql.Execute.Dynamic.{
  bool_eq, same_names, bound, agrees, allocate, placeholder, dynamic_parameter, provider_type_of,
}

bool_eq_refl : (b : Bool) → bool_eq b b ≡ true
bool_eq_refl true = refl
bool_eq_refl false = refl

beq_refl {ℓ} : {A : Type ℓ} ⦃e : Eq A⦄ (a : A) → (a == a) ≡ true
beq_refl ⦃e⦄ a = (e.beq_iff a a).1 refl

provider_refl : (o : Option (String × String)) → option_beq same_names o o ≡ true
provider_refl none = refl
provider_refl (some (a, b)) = ground (arith, string_eq.beq_iff a a, string_eq.beq_iff b b)

module _ (rt : Runtime) (same_refl : (v : rt.Value) → rt.same_value v v ≡ true) where
  agrees_refl : (p : BoundParameter rt) → agrees rt p p ≡ true
  unfolding agrees
  agrees_refl p =
      rw
        (
          beq_refl p.data_type,
          beq_refl p.wire,
          provider_refl p.provider_type,
          bool_eq_refl p.collection,
        )
        (same_refl p.value)

module _ (rt : Runtime) where
  allocate_found :
      (path : String) (wanted existing : BoundParameter rt) (s : Operands rt)
      → get_elem? s.parameters s.operand_index ≡ some existing
      → agrees rt existing wanted ≡ true
      → allocate rt path wanted s ≡ ok (tt, s)
  unfolding allocate
  allocate_found path wanted existing s found same =
      ground (arith, get_elem?-lt s.parameters s.operand_index found)

  allocate_new :
      (path : String) (wanted : BoundParameter rt) (s : Operands rt)
      → s.operand_index ≡ length s.parameters
      → allocate rt path wanted s ≡ ok (tt, record s { parameters = s.parameters ++ wanted ∷ [] })
  unfolding allocate
  allocate_new path wanted s h = ground arith

  -- A new bind at the end, or an old one that agrees.
  allocate_cases :
      (path : String) (wanted : BoundParameter rt) (s : Operands rt) {u : Unit {0}}
      {s' : Operands rt}
      → allocate rt path wanted s ≡ ok (u, s')
      → ((s.operand_index ≡ length s.parameters)
          × (s' ≡ record s { parameters = s.parameters ++ wanted ∷ [] }))
        ⊎ ((existing : BoundParameter rt) × (get_elem? s.parameters s.operand_index ≡ some existing)
            × (agrees rt existing wanted ≡ true)
            × (s' ≡ s))
  unfolding allocate
  allocate_cases path wanted s {s'} h =
      elim (Bool-cases (eqb s.operand_index (length s.parameters))) [
        | inl new ↦ inl ((eqb_iff _ _).0 new, ground arith)
        | inr old ↦ inr (reused old)
      ]
    where
      reused :
          eqb s.operand_index (length s.parameters) ≡ false
          → (existing : BoundParameter rt) × (get_elem? s.parameters s.operand_index
              ≡ some existing)
            × (agrees rt existing wanted ≡ true)
            × (s' ≡ s)
      reused old = elim (Option-cases (get_elem? s.parameters s.operand_index)) [
        | inl missing ↦ absurd (ground arith)
        | inr (existing, found) ↦ (existing, found, ground arith, ground arith)
      ]

-- What a reused bind shares with the operand: all but its path, the value by the equality of values.
pub record Same (rt : Runtime) (held wanted : BoundParameter rt) : Type 0 where
  pub data_type : held.data_type ≡ wanted.data_type
  pub wire : held.wire ≡ wanted.wire
  pub provider_type : held.provider_type ≡ wanted.provider_type
  pub collection : held.collection ≡ wanted.collection
  pub value : rt.same_value held.value wanted.value ≡ true

bool_eq-eq : (a b : Bool) → bool_eq a b ≡ true → a ≡ b
bool_eq-eq true true h = refl
bool_eq-eq true false h = cc
bool_eq-eq false true h = cc
bool_eq-eq false false h = refl

provider_eq : (o p : Option (String × String)) → option_beq same_names o p ≡ true → o ≡ p
provider_eq none none h = refl
provider_eq none (some _) h = cc
provider_eq (some _) none h = cc
provider_eq (some (a, b)) (some (c, d)) h =
    let (first, second) = (and_iff (a == c) (b == d)).0 h in
    let left : a ≡ c = (string_eq.beq_iff a c).0 first in
    let right : b ≡ d = (string_eq.beq_iff b d).0 second in rw (left, right) refl

module _ (rt : Runtime) where
  agrees-Same : (p q : BoundParameter rt) → agrees rt p q ≡ true → Same rt p q
  unfolding agrees
  agrees-Same p q h =
      let (kind, wire, provider, collection, value) = five h in
      record {
        data_type = (string_eq.beq_iff p.data_type q.data_type).0 kind;
        wire = (wire_eq.beq_iff p.wire q.wire).0 wire;
        provider_type = provider_eq p.provider_type q.provider_type provider;
        collection = bool_eq-eq p.collection q.collection collection;
        value = value;
      }
    where
      five :
          {a b c d e : Bool}
          → ((((a && b) && c) && d) && e) ≡ true
          → (a ≡ true) × (b ≡ true) × (c ≡ true) × (d ≡ true) × (e ≡ true)
      five {a} {b} {c} {d} {e} all = ground arith

  Same-agrees : (p q : BoundParameter rt) → Same rt p q → agrees rt p q ≡ true
  unfolding agrees
  Same-agrees p q s =
      rw
        (
          s.data_type,
          s.wire,
          s.provider_type,
          s.collection,
          beq_refl q.data_type,
          beq_refl q.wire,
          provider_refl q.provider_type,
          bool_eq_refl q.collection,
        )
        s.value

-- Where an operand stands after it was allocated at `s`, and what was bound there.
pub record Placed (rt : Runtime) (wanted : BoundParameter rt) (s : Operands rt) (shown : String)
    (s' : Operands rt) : Type 0 where
  pub spelled : shown ≡ format ("$" ∷ decimal (s.operand_index + 1) ∷ [])
  pub next : s'.operand_index ≡ s.operand_index + 1
  pub held : BoundParameter rt
  pub found : get_elem? s'.parameters s.operand_index ≡ some held
  pub same : Same rt held wanted
  pub frugal : s'.operand_index ≤ length s.parameters → s'.parameters ≡ s.parameters
  pub added : List (BoundParameter rt)
  pub extends : s'.parameters ≡ s.parameters ++ added

module _ (rt : Runtime) (same_refl : (v : rt.Value) → rt.same_value v v ≡ true) where
  allocate-Placed :
      (path : String) (wanted : BoundParameter rt) (s : Operands rt) {u : Unit {0}}
      {s₁ : Operands rt} {shown : String} {s' : Operands rt}
      → allocate rt path wanted s ≡ ok (u, s₁)
      → placeholder rt s₁ ≡ ok (shown, s')
      → Placed rt wanted s shown s'
  unfolding placeholder
  allocate-Placed path wanted s {s₁} {shown} {s'} first second =
      elim (allocate_cases rt path wanted s first) [
        | inl (new, e) ↦
            let moved : s'.operand_index ≡ s.operand_index + 1 = ground arith in
            record {
              spelled = ground arith;
              next = moved;
              held = wanted;
              found = rw (grown e, new) (get_elem?-append_length s.parameters [] wanted);
              same = agrees-Same rt wanted wanted (agrees_refl rt same_refl wanted);
              frugal = λ within. absurd (omega (arith, new, moved, within));
              added = wanted ∷ [];
              extends = grown e;
            }
        | inr (existing, found, same, e) ↦ record {
          spelled = ground arith;
          next = ground arith;
          held = existing;
          found = ground arith;
          same = agrees-Same rt existing wanted same;
          frugal = λ _. kept e;
          added = [];
          extends = rw append-nil (kept e);
        }
      ]
    where
      grown :
          s₁ ≡ record s { parameters = s.parameters ++ wanted ∷ [] }
          → s'.parameters ≡ s.parameters ++ wanted ∷ []
      grown e = ground arith

      kept : s₁ ≡ s → s'.parameters ≡ s.parameters
      kept e = ground arith

  -- The placeholder of an operand is one more than the index that it was given, the next operand is
  -- one further, and every bind that was there stays where it is. The bind at that index has the type,
  -- the encoding, the provider type and the cardinality of the operand and a value that equals its
  -- value, and a bind is only added where the operand has passed those that were there. The equality
  -- of values must be reflexive.
  pub dynamic_parameter-Placed :
      (path : String) (field : DynamicInputField) (collection : Bool) (v : rt.Value)
      (s : Operands rt) {shown : String} {s' : Operands rt}
      → dynamic_parameter rt path field collection v s ≡ ok (shown, s')
      → Placed rt
          (record {
            path = path;
            data_type = field.data_type;
            wire = field.wire.encoding;
            provider_type = provider_type_of field.wire;
            collection = collection;
            value = v;
          })
          s
          shown
          s'
  unfolding dynamic_parameter bound ◌>>=◌
  dynamic_parameter-Placed path field collection v s h =
      let wanted = bound rt path field collection v in
      let (u, s₁, first, second) =
        continue-eq-ok (allocate rt path wanted s) (λ _. placeholder rt) h in
      allocate-Placed path wanted s first second

  replayed :
      (path : String) (field : DynamicInputField) (collection : Bool) (v : rt.Value)
      (s : Operands rt) {shown : String} {s' : Operands rt}
      → Placed rt (bound rt path field collection v) s shown s'
      → (more : List (BoundParameter rt))
      → dynamic_parameter rt path field collection v (with_more s s' more)
        ≡ ok (shown, with_more s' s' more)
  unfolding dynamic_parameter placeholder ◌>>=◌
  replayed path field collection v s {s'} p more =
      rw
        (allocate_found rt path (bound rt path field collection v) p.held (with_more s s' more)
          (get_elem?-append_left s'.parameters more s.operand_index p.found)
          (Same-agrees rt p.held (bound rt path field collection v) p.same))
        (cc (p.spelled, p.next))

  pub Steady-dynamic_parameter :
      (path : String) (field : DynamicInputField) (collection : Bool) (v : rt.Value)
      → Steady (dynamic_parameter rt path field collection v)
  unfolding bound
  Steady-dynamic_parameter path field collection v = record {
    at = λ s shown s' h e.
        let p = dynamic_parameter-Placed path field collection v s e in
        record {
          added = p.added;
          extends = p.extends;
          forward = omega (arith, p.next);
          within = omega (arith, p.next, get_elem?-lt s'.parameters s.operand_index p.found);
          frugal = p.frugal;
          replay = λ more. replayed path field collection v s p more;
        };
  }
