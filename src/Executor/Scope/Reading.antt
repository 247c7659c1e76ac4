-- ===== src/Executor/Scope/Reading.antt =====
-- What narrowing leaves as it was in a node, and what a narrowed node names.
use simian_agent.Prelude.{
  contains, contains-sort_by, contains-dedupe_from, String, refl, ap, inl, inr, true, false, some,
  List, arith, string_Eq, Bool-cases, [], ◌≡◌, ◌∙◌, ◌||◌, ◌∷◌, ◌++◌, ◌==◌, if◌then◌else◌, nat_Eq,
}
use simian_agent.Simian.Text.{text_below}
use simian_agent.Simian.Types.{
  Value, null, bool, num, str, arr, obj, Items, nil, cons, Fields, end, field,
}
use simian_agent.Executor.Scope.{
  is_opaque, is_container, has_selector_marker, get_field, set_field, add_text, texts_in, listed,
  keyed, namespaces_in, to_items, is_empty, narrow, narrow_fields, narrow_items,
}

pub is_container-narrow :
    (ts : List String) (v : Value) (k : String) → is_container (narrow ts v k) ≡ is_container v
unfolding narrow is_container
is_container-narrow ts null k = refl
is_container-narrow ts (bool b) k = refl
is_container-narrow ts (num n) k = refl
is_container-narrow ts (str s) k = refl
is_container-narrow ts (arr xs) k = refl
is_container-narrow ts (obj fs) k = refl

pub marker-narrow_fields :
    (ts : List String) (fs : Fields)
    → has_selector_marker (narrow_fields ts fs) ≡ has_selector_marker fs
unfolding narrow_fields has_selector_marker
marker-narrow_fields ts end = refl
marker-narrow_fields ts (field k v r) = elim (Bool-cases (is_opaque k)) [
  | inl t ↦ rw (t, marker-narrow_fields ts r) refl
  | inr f ↦ rw (f, is_container-narrow ts v k, marker-narrow_fields ts r) refl
]

pub add_text-narrow :
    (ts : List String) (v : Value) (l : List String) → add_text (narrow ts v "") l ≡ add_text v l
unfolding narrow add_text
add_text-narrow ts null l = refl
add_text-narrow ts (bool b) l = refl
add_text-narrow ts (num n) l = refl
add_text-narrow ts (str s) l = refl
add_text-narrow ts (arr xs) l = refl
add_text-narrow ts (obj fs) l = refl

pub texts_in-narrow_items :
    (ts : List String) (xs : Items) → texts_in (narrow_items ts xs) ≡ texts_in xs
unfolding narrow_items texts_in
texts_in-narrow_items ts nil = refl
texts_in-narrow_items ts (cons v r) =
    add_text-narrow ts v _ ∙ ap (add_text v) (texts_in-narrow_items ts r)

pub listed-narrow :
    (ts : List String) (v : Value) (k : String) → listed (some (narrow ts v k)) ≡ listed (some v)
unfolding narrow listed
listed-narrow ts null k = refl
listed-narrow ts (bool b) k = refl
listed-narrow ts (num n) k = refl
listed-narrow ts (str s) k = refl
listed-narrow ts (arr xs) k = texts_in-narrow_items ts xs
listed-narrow ts (obj fs) k = refl

pub listed-narrow_fields :
    (ts : List String) (j : String) (fs : Fields)
    → listed (get_field j (narrow_fields ts fs)) ≡ listed (get_field j fs)
unfolding narrow_fields get_field
listed-narrow_fields ts j end = refl
listed-narrow_fields ts j (field k v r) = elim (Bool-cases (k == j)) [
  | inl t ↦
      rw t (elim (Bool-cases (is_opaque k)) [
        | inl o ↦ rw o refl
        | inr c ↦ rw c (listed-narrow ts v k)
      ])
  | inr f ↦ rw f (listed-narrow_fields ts j r)
]

pub pods_opaque : (k : String) → (k == "pods") ≡ true → is_opaque k ≡ true
unfolding is_opaque
pods_opaque k h = rw ((string_Eq.beq_iff k "pods").0 h) refl

pub pods-narrow_fields :
    (ts : List String) (fs : Fields) → get_field "pods" (narrow_fields ts fs) ≡ get_field "pods" fs
unfolding narrow_fields get_field
pods-narrow_fields ts end = refl
pods-narrow_fields ts (field k v r) = elim (Bool-cases (k == "pods")) [
  | inl t ↦ rw (t, pods_opaque k t) refl
  | inr f ↦ rw f (pods-narrow_fields ts r)
]

pub namespaces_in-narrow_fields :
    (ts : List String) (fs : Fields) → namespaces_in (narrow_fields ts fs) ≡ namespaces_in fs
unfolding namespaces_in
namespaces_in-narrow_fields ts fs =
    rw (listed-narrow_fields ts "namespaces" fs, pods-narrow_fields ts fs) refl

pub get_field-set_field :
    (k j : String) (v : Value) (fs : Fields)
    → get_field j (set_field k v fs) ≡ (if k == j then some v else get_field j fs)
unfolding get_field set_field
get_field-set_field k j v end = refl
get_field-set_field k j v (field i w r) = ground (
  arith,
  string_Eq.beq_iff k j,
  string_Eq.beq_iff i k,
  string_Eq.beq_iff i j,
  get_field-set_field k j v r,
)

pub contains-append :
    (xs ys : List String) (a : String) → contains (xs ++ ys) a ≡ (contains xs a || contains ys a)
contains-append [] ys a = refl
contains-append (x ∷ xs) ys a = ground (arith, contains-append xs ys a)

pub contains-namespaces_in :
    (fs : Fields) (ns : String)
    → contains (namespaces_in fs) ns ≡ (
        contains (listed (get_field "namespaces" fs)) ns
        || contains (keyed (get_field "pods" fs)) ns)
unfolding namespaces_in
contains-namespaces_in fs ns =
    contains-sort_by text_below ns _
    ∙ contains-dedupe_from ns [] _
    ∙ contains-append (listed (get_field "namespaces" fs)) _ ns

pub texts_in-to_items : (ts : List String) → contains ts "" ≡ false → texts_in (to_items ts) ≡ ts
unfolding texts_in to_items
texts_in-to_items [] h = refl
texts_in-to_items (t ∷ ts) h = ground (arith, texts_in-to_items ts)

pub is_empty_nil : (l : List String) → is_empty l ≡ true → l ≡ []
unfolding is_empty
is_empty_nil [] h = refl
is_empty_nil (x ∷ l) h = absurd (cc)

-- A node that named nothing names exactly the targets once it is narrowed.
pub contains-narrowed :
    (ts : List String) (fs inner : Fields) (ns : String)
    → contains ts "" ≡ false
    → is_empty (namespaces_in fs) ≡ true
    → get_field "pods" inner ≡ get_field "pods" fs
    → contains (namespaces_in (set_field "namespaces" (arr (to_items ts)) inner)) ns
      ≡ contains ts ns
unfolding listed
contains-narrowed ts fs inner ns h e p = ground (
  arith,
  contains-namespaces_in (set_field "namespaces" (arr (to_items ts)) inner) ns,
  get_field-set_field "namespaces" "namespaces" (arr (to_items ts)) inner,
  get_field-set_field "namespaces" "pods" (arr (to_items ts)) inner,
  texts_in-to_items ts h,
  contains-namespaces_in fs ns,
  is_empty_nil (namespaces_in fs) e,
)
