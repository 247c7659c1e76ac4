-- ===== src/Catalog/Outage.antt =====
-- pkg/catalog/outage.go: the shape of an outage manifest.
use simian_agent.Simian.Types.{str, end, field}
use simian_agent.Prelude.{
  length, contains, String, Bool, true, not, Option, none, some, List, [], ◌&&◌, ◌||◌, ◌∷◌, ◌==◌,
  if◌then◌else◌, nat_Eq, string_Eq,
}
use simian_agent.Catalog.Tiers.{field_of}
use simian_agent.Simian.Targets.{target_namespaces}
use simian_agent.Simian.Text.{trim_space}
use simian_agent.Simian.Types.{engine_chaos_mesh, Engine, Value, Fields, FaultManifest}

unfoldable pub is_outage_kind : Engine → String → Bool
is_outage_kind engine kind =
    engine == engine_chaos_mesh && (kind == "ZoneOutage" || kind == "NodeOutage")

unfoldable pub outage_place_field : String → String
outage_place_field kind = if kind == "NodeOutage" then "node" else "zone"

unfoldable pub text_or_empty : Option Value → String
text_or_empty (some (str s)) = s
text_or_empty _ = ""

-- The field, and the zone or the node that it names.
unfoldable pub outage_place : FaultManifest → String × String
unfolding outage_place_field text_or_empty
outage_place m =
    let f = outage_place_field m.resource_kind in
    (f, trim_space (text_or_empty (field_of m.spec f)))

abbrev pub outage_action_pod_failure : String
outage_action_pod_failure = "pod-failure"

unfoldable pub outage_action : Option Fields → String
unfolding text_or_empty
outage_action spec =
    let a = text_or_empty (field_of spec "action") in
    if a == "" then outage_action_pod_failure else a

unfoldable pub unknown_fields : List String → Fields → List String
unknown_fields allowed end = []
unknown_fields allowed (field k v r) =
    let rest = unknown_fields allowed r in if contains allowed k then rest else k ∷ rest

unfoldable pub unknown_in : List String → Option Fields → List String
unfolding unknown_fields
unknown_in allowed none = []
unknown_in allowed (some fs) = unknown_fields allowed fs

unfoldable pub is_well_formed_outage : FaultManifest → Bool
unfolding outage_place outage_action unknown_in
is_well_formed_outage m =
    let place = outage_place m in
    length (unknown_in (place.0 ∷ "action" ∷ []) m.spec) == 0
    && not (place.1 == "")
    && outage_action m.spec == outage_action_pod_failure
    && length (target_namespaces m) == 1

-- `true` is no error.
unfoldable pub check_outage_manifest : FaultManifest → Bool
unfolding is_outage_kind is_well_formed_outage
check_outage_manifest m =
    if is_outage_kind m.engine m.resource_kind then is_well_formed_outage m else true
