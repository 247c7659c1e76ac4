-- ===== src/Simian/Record.antt =====
-- pkg/simian/record.go: what the audit trail is told of a manifest. `duration_text` is time.Duration's
-- String. A value is its own deep copy here.
use simian_agent.Prelude.{
  ℤ, String, Option, none, some, List, [], ◌∷◌, ◌==◌, if◌then◌else◌, nat_Eq, string_Eq,
}
use simian_agent.Simian.Types.{
  FaultManifest, TargetRef, Fields, Items, end, field, nil, cons, str, arr, obj,
}

-- A text that is empty has no field.
unfoldable pub with_text : String → String → Fields → Fields
with_text k s rest = if s == "" then rest else field k (str s) rest

unfoldable pub label_texts : List (String × String) → Fields
label_texts [] = end
label_texts ((k, v) ∷ ls) = field k (str v) (label_texts ls)

unfoldable pub with_labels : List (String × String) → Fields → Fields
unfolding label_texts
with_labels [] rest = rest
with_labels (l ∷ ls) rest = field "labels" (obj (label_texts (l ∷ ls))) rest

unfoldable pub target_fields : TargetRef → Fields
unfolding with_text with_labels
target_fields t =
    with_text "kind" t.kind
      (with_labels t.labels (with_text "name" t.name (field "namespace" (str t.ns) end)))

unfoldable pub target_items : List TargetRef → Items
unfolding target_fields
target_items [] = nil
target_items (t ∷ ts) = cons (obj (target_fields t)) (target_items ts)

-- The copy of a nil map is an empty one.
unfoldable pub copy_spec : Option Fields → Fields
copy_spec none = end
copy_spec (some fs) = fs

unfoldable pub audit_record : (ℤ → String) → FaultManifest → Fields
unfolding with_text target_items copy_spec
audit_record duration_text m = with_text "blast_radius_tier" m.blast_radius_tier (
    field "duration" (str (duration_text m.duration)) (
      field "engine" (str m.engine) (
        field "kind" (str m.resource_kind) (
          field "spec" (obj (copy_spec m.spec))
            (field "targets" (arr (target_items m.targets)) end)))))
