-- ===== src/Execute/Sample.antt =====
-- A concrete runtime for the tests: JSON trees with integers for numbers, and texts for the types
-- that other packages parse.
use dsql.Prelude.{
  ℕ, suc, ◌<◌, ◌≤◌, String, Bool, true, false, not, ◌&&◌, Option, none, some, List, [], ◌∷◌, ◌≡◌,
  refl, inl, inr, In, arith, ◌==◌, eqb, eqb_iff, string_eq, if◌then◌else◌, ap,
}
use Prim.Native.Nat.{max}
use dsql.Prelude.Int.{ℤ, pos, negsuc}
use dsql.Execute.Runtime.{Runtime}
use dsql.Execute.Dynamic.Terminates.{IsNested}

mutual
  pub data Json : Type 0 where
    null : Json
    bool : Bool → Json
    num : ℤ → Json
    str : String → Json
    arr : Items → Json
    obj : Fields → Json

  pub data Items : Type 0 where
    nil : Items
    cons : Json → Items → Items

  pub data Fields : Type 0 where
    end : Fields
    field : String → Json → Fields → Fields

abbrev pub items_list : Items → List Json
items_list nil = []
items_list (cons v vs) = v ∷ items_list vs

abbrev pub list_items : List Json → Items
list_items [] = nil
list_items (v ∷ vs) = cons v (list_items vs)

abbrev pub fields_list : Fields → List (String × Json)
fields_list end = []
fields_list (field k v fs) = (k, v) ∷ fields_list fs

abbrev same_int : ℤ → ℤ → Bool
same_int (pos a) (pos b) = eqb a b
same_int (negsuc a) (negsuc b) = eqb a b
same_int _ _ = false

abbrev same_bool : Bool → Bool → Bool
same_bool true b = b
same_bool false b = not b

unfoldable mutual
  pub same_json : Json → Json → Bool
  same_json null null = true
  same_json (bool a) (bool b) = same_bool a b
  same_json (num a) (num b) = same_int a b
  same_json (str a) (str b) = a == b
  same_json (arr a) (arr b) = same_items a b
  same_json (obj a) (obj b) = same_fields a b
  same_json _ _ = false

  pub same_items : Items → Items → Bool
  same_items nil nil = true
  same_items (cons a as') (cons b bs) = same_json a b && same_items as' bs
  same_items _ _ = false

  pub same_fields : Fields → Fields → Bool
  same_fields end end = true
  same_fields (field k a as') (field j b bs) = k == j && (same_json a b && same_fields as' bs)
  same_fields _ _ = false

unfoldable mutual
  pub depth : Json → ℕ
  depth null = 0
  depth (bool b) = 0
  depth (num n) = 0
  depth (str s) = 0
  depth (arr vs) = suc (depth_items vs)
  depth (obj fs) = suc (depth_fields fs)

  pub depth_items : Items → ℕ
  depth_items nil = 0
  depth_items (cons v vs) = max (depth v) (depth_items vs)

  pub depth_fields : Fields → ℕ
  depth_fields end = 0
  depth_fields (field k v fs) = max (depth v) (depth_fields fs)

abbrev non_empty : String → Option String
non_empty s = if s == "" then none else some s

abbrev pub sample : Runtime
sample = record {
  Value = Json;
  Number = ℤ;
  Float = ℤ;
  Uuid = String;
  Timestamp = String;
  Decimal = String;
  Regex = String;
  Raw = Json;
  null = null;
  empty_object = obj end;
  of_string = str;
  of_bool = bool;
  of_i64 = num;
  of_float = num;
  of_array = λ vs. arr (list_items vs);
  is_null = elim [ null ↦ true | _ ↦ false ];
  as_bool = elim [ bool b ↦ some b | _ ↦ none ];
  as_string = elim [ str s ↦ some s | _ ↦ none ];
  as_number = elim [ num n ↦ some n | _ ↦ none ];
  as_array = elim [ arr vs ↦ some (items_list vs) | _ ↦ none ];
  as_object = elim [ obj fs ↦ some (fields_list fs) | _ ↦ none ];
  same_value = same_json;
  is_integer = λ n. true;
  to_i64 = λ n. some n;
  to_float = λ n. n;
  parse_float = λ s. none;
  is_finite = λ x. true;
  parse_uuid = non_empty;
  parse_timestamp = non_empty;
  parse_decimal = non_empty;
  compile = λ p. some p;
  is_match = λ p s. p == s;
  to_raw = λ v. some v;
  raw_error = λ v. "";
}

mutual
  unfolding same_json

  same_json_self : (v : Json) → same_json v v ≡ true
  same_json_self null = refl
  same_json_self (bool true) = refl
  same_json_self (bool false) = refl
  same_json_self (num (pos n)) = (eqb_iff n n).1 refl
  same_json_self (num (negsuc n)) = (eqb_iff n n).1 refl
  same_json_self (str s) = (string_eq.beq_iff s s).1 refl
  same_json_self (arr vs) = same_items_self vs
  same_json_self (obj fs) = same_fields_self fs

  same_items_self : (vs : Items) → same_items vs vs ≡ true
  same_items_self nil = refl
  same_items_self (cons v vs) = ground (arith, same_json_self v, same_items_self vs)

  same_fields_self : (fs : Fields) → same_fields fs fs ≡ true
  same_fields_self end = refl
  same_fields_self (field k v fs) =
      ground (arith, string_eq.beq_iff k k, same_json_self v, same_fields_self fs)

pub same_json_refl : (v : Json) → same_json v v ≡ true
same_json_refl v = same_json_self v

depth-items : (vs : Items) (x : Json) → In x (items_list vs) → depth x ≤ depth_items vs
unfolding depth
depth-items nil x i = absurd i
depth-items (cons v vs) x (inl e) = rw e (omega arith)
depth-items (cons v vs) x (inr i) = omega (arith, depth-items vs x i)

depth-fields :
    (fs : Fields) (key : String) (x : Json)
    → In (key, x) (fields_list fs)
    → depth x ≤ depth_fields fs
unfolding depth
depth-fields end key x i = absurd i
depth-fields (field k v fs) key x (inl e) =
    let same : x ≡ v = ap (λ (p : String × Json). p.1) e in rw same (omega arith)
depth-fields (field k v fs) key x (inr i) = omega (arith, depth-fields fs key x i)

abbrev or_else {ℓ} : {A : Type ℓ} → A → Option A → A
or_else d none = d
or_else d (some a) = a

nested_element :
    (v : Json) (xs : List Json) (x : Json)
    → sample.as_array v ≡ some xs
    → In x xs
    → depth x < depth v
unfolding depth
nested_element (arr vs) xs x e i =
    let same : items_list vs ≡ xs = ap (or_else xs) e in omega (arith, depth-items vs x (rw same i))
nested_element null xs x e i = cc
nested_element (bool _) xs x e i = cc
nested_element (num _) xs x e i = cc
nested_element (str _) xs x e i = cc
nested_element (obj _) xs x e i = cc

nested_member :
    (v : Json) (object : List (String × Json)) (key : String) (x : Json)
    → sample.as_object v ≡ some object
    → In (key, x) object
    → depth x < depth v
unfolding depth
nested_member (obj fs) object key x e i =
    let same : fields_list fs ≡ object = ap (or_else object) e in
    omega (arith, depth-fields fs key x (rw same i))
nested_member null object key x e i = cc
nested_member (bool _) object key x e i = cc
nested_member (num _) object key x e i = cc
nested_member (str _) object key x e i = cc
nested_member (arr _) object key x e i = cc

pub sample-IsNested : IsNested sample depth
sample-IsNested = record { element = nested_element; member = nested_member }
