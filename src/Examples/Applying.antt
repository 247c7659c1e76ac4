-- ===== src/Examples/Applying.antt =====
-- A pod kill through Apply, its gates, and the budget (pkg/executor).
use simian_agent.Simian.Types.{
  FaultManifest, ExecutorError, ExecutorStage, obj, Fields, str, cons, nil,
}
use simian_agent.Simian.Types.{arr, field, end}
use simian_agent.Executor.Budget.Threads.{System, Reach, here, next, book}
use simian_agent.Executor.History.Indexed.{new_history-Inv, push-Inv, Inv}
use simian_agent.Executor.History.{
  push_refused, new_history, History, RefusedFault, RecentFault, list_refused, push, has,
  update_cleared,
}
use simian_agent.Lease.Registry.{new_registry, list}
use simian_agent.Executor.Scope.{
  SelectorSite, is_scope_exempt, find_selector_sites, is_eligible, Scoped,
  validate_spec_namespace_scope, key,
}
use simian_agent.Catalog.Tiers.{chaos_mesh_tier}
use simian_agent.Prelude.{
  reverse, length, get_elem?, take, keep, In, All, contains, pos, ℕ, String, refl, inl, true, false,
  none, some, arith, string_Eq, [], ◌+◌, ◌≤◌, ◌≡◌, ◌≢◌, ◌⊎◌, ◌∷◌, nat_Eq,
}
use simian_agent.Executor.Pipeline.Admitting.{apply-Admitted, prepared, Admitted}
use simian_agent.Executor.Pods.Reached.{narrow_pod_selector-Reaches, MainReaches, Reaches}
use simian_agent.Executor.Pods.{is_main_path, narrow_pod_selector}
use simian_agent.Catalog.Outage.{is_outage_kind}
use simian_agent.Catalog.Tiers.{chaos_mesh_tier}
use simian_agent.Catalog.Tiers.{chaos_mesh_tier}
use simian_agent.Prelude.Sorting.{sort_by}
use simian_agent.Prelude.Results.{ok, err}
use simian_agent.Executor.Scope.Scoping.{validate_spec-IsScoped}
use simian_agent.Executor.History.Clearing.{update_cleared_exact}
use simian_agent.Executor.History.Newest.{list_refused_exact}
use simian_agent.Executor.Pipeline.Settled.{Balanced}
use simian_agent.Executor.Pipeline.Answers.{apply-Settled, Answered}
use simian_agent.Executor.Pipeline.Fates.{Fate}
use simian_agent.Executor.Budget.Counts.{release-reserve, cooldown_respected}
use simian_agent.Executor.Pipeline.{named}
use simian_agent.Executor.Pipeline.{apply}
use simian_agent.Executor.Safety.{refused, passed, validate_safety}
use simian_agent.Executor.Safety.Gates.{validate_safety-Safe, Safe}
use simian_agent.Executor.Budget.{Booking, record_apply, count_of, Books, release, reserve}
use simian_agent.Examples.Data.{
  pod_spec, idle, host, empty_registry, nothing_excluded, net, idle_books, only_shop, pod_kill,
  config, limits,
}
use simian_agent.Simian.Targets.{targets_namespace, target_namespaces}
use simian_agent.Executor.Budget.Capped.{applies_disjoint, idle_with, leases_capped}
use simian_agent.Executor.Budget.Counting.{waiting, holders}

apply_test : (apply net config host idle pod_kill).1 ≡ passed "f-1"
unfolding apply validate_spec_namespace_scope target_namespaces chaos_mesh_tier list new_registry
apply_test = refl

apply-Settled_example :
    let n = named net config host pod_kill in
    let (t, o) = apply net config host idle pod_kill in
    Answered net config host n idle.books.registry t.books.registry o × Balanced idle.books t.books
apply-Settled_example = apply-Settled net config host idle pod_kill

gates_pass : (validate_safety net config only_shop nothing_excluded pod_kill).error ≡ none
unfolding validate_safety validate_spec_namespace_scope target_namespaces chaos_mesh_tier
gates_pass = refl

validate_safety-Safe_example :
    Safe config only_shop nothing_excluded pod_kill
      (validate_safety net config only_shop nothing_excluded pod_kill).manifest
validate_safety-Safe_example =
    validate_safety-Safe net config only_shop nothing_excluded pod_kill gates_pass

abbrev scoped_kill : Scoped
scoped_kill = record {
  manifest = record pod_kill {
    spec = some (
        field "action" (str "pod-kill") (
          field "selector"
            (obj (
              field "labelSelectors" (obj (field "app" (str "web") end))
                (field "namespaces" (arr (cons (str "shop") nil)) end)))
            end));
  };
  narrowed = (key "spec" ∷ key "selector" ∷ []) ∷ [];
}

kill_is_scoped : validate_spec_namespace_scope only_shop pod_kill ≡ ok scoped_kill
unfolding validate_spec_namespace_scope target_namespaces
kill_is_scoped = refl

shop_granted :
    (ns : String)
    → contains (target_namespaces pod_kill) ns ≡ true
    → is_eligible only_shop ns ≡ true
unfolding target_namespaces is_eligible
shop_granted ns c =
    let p = string_Eq.beq_iff "shop" ns in
    let q = string_Eq.beq_iff ns "shop" in ground (arith, p, q)

mesh_checked : is_scope_exempt pod_kill.engine ≡ false
unfolding is_scope_exempt
mesh_checked = refl

validate_spec-IsScoped_example :
    (s : Fields) × (scoped_kill.manifest.spec ≡ some s)
    × All
        (λ site.
          (site.namespaces ≢ []) × All (λ ns. is_eligible only_shop ns ≡ true) site.namespaces)
        (find_selector_sites s)
validate_spec-IsScoped_example =
    validate_spec-IsScoped only_shop pod_kill pod_spec scoped_kill mesh_checked refl shop_granted
      kill_is_scoped

abbrev names : String → Fields
names ns = field "namespaces" (arr (cons (str ns) nil)) end

-- The second selector is refused, and the first one stays narrowed.
abbrev half_scoped : FaultManifest
half_scoped = record pod_kill {
  spec = some (
      field "selector" (obj end)
        (field "target" (obj (field "selector" (obj (names "kube-system")) end)) end));
}

half_scoped_test :
    validate_spec_namespace_scope only_shop half_scoped
    ≡ err (record half_scoped {
      spec = some (
          field "selector"
            (obj (names "shop"))
            (field "target" (obj (field "selector" (obj (names "kube-system")) end)) end));
    })
unfolding validate_spec_namespace_scope target_namespaces
half_scoped_test = refl

abbrev booked : Books × Booking
booked = (
  record idle_books { in_flight = 1; in_flight_ns = ("shop", 1) ∷ [] },
  record { namespaces = "shop" ∷ []; done = false },
)

is_booked : reserve limits idle_books 1000 ("shop" ∷ []) ≡ some booked
unfolding reserve list sort_by new_registry
is_booked = refl

abbrev one_apply : System
one_apply = record {
  books = booked.0;
  threads = record { booking = booked.1; is_leased = false } ∷ [];
}

one_apply_reached : Reach limits (idle_with empty_registry) one_apply
one_apply_reached = next here (book 1000 ("shop" ∷ []) booked.0 booked.1 is_booked refl)

leases_capped_example : length one_apply.books.registry.items + waiting one_apply.threads ≤ 1
unfolding new_registry
leases_capped_example =
    leases_capped limits 1 empty_registry one_apply (omega arith) (omega arith) (omega arith)
      one_apply_reached

applies_disjoint_example : holders "shop" one_apply.threads ≤ 1
applies_disjoint_example =
    applies_disjoint limits empty_registry one_apply "shop" (omega arith) one_apply_reached

is_booked_late :
    reserve limits (record_apply idle_books 1000 ("shop" ∷ [])) 1500 ("shop" ∷ [])
    ≡ some (
      record idle_books {
        in_flight = 1;
        in_flight_ns = ("shop", 1) ∷ [];
        last_apply_by_ns = ("shop", 1000) ∷ [];
      },
      booked.1,
    )
unfolding reserve record_apply list sort_by new_registry
is_booked_late = refl

cooldown_respected_example : 1000 + 300 ≤ 1500
cooldown_respected_example =
    cooldown_respected limits idle_books
      (record idle_books {
        in_flight = 1;
        in_flight_ns = ("shop", 1) ∷ [];
        last_apply_by_ns = ("shop", 1000) ∷ [];
      })
      1000 1500 ("shop" ∷ []) ("shop" ∷ []) booked.1 "shop" (omega arith) (inl refl) (inl refl)
      is_booked_late

release-reserve_example :
    let (d, j) = release booked.0 booked.1 in
    (d.in_flight ≡ 0)
    × ((ns : String) → count_of d.in_flight_ns ns ≡ count_of [] ns)
    × (release d j ≡ (d, j))
release-reserve_example =
    release-reserve limits idle_books booked.0 1000 ("shop" ∷ []) booked.1 is_booked

abbrev recent : RecentFault
recent = record {
  fault_uid = "f-1";
  manifest = pod_kill;
  applied_at = 1001;
  cleared_at = 0;
  clear_reason = "";
}

push-Inv_example : Inv (push (new_history (pos 10)) recent)
push-Inv_example = push-Inv (new_history (pos 10)) recent (new_history-Inv (pos 10))

abbrev one_recent : History
one_recent = push (new_history (pos 10)) recent

one_recent_kept : Inv one_recent
one_recent_kept = push-Inv (new_history (pos 10)) recent (new_history-Inv (pos 10))

update_cleared_exact_example :
    let t = update_cleared one_recent "f-1" 1050 "explicit-clear" in
    ((has one_recent "f-1" ≡ false) × (t ≡ one_recent))
    ⊎ ((has one_recent "f-1" ≡ true)
        × (i : ℕ) × (rf : RecentFault) × (get_elem? one_recent.items i ≡ some rf)
        × (rf.fault_uid ≡ "f-1")
        × (get_elem? t.items i
            ≡ some (record rf { cleared_at = 1050; clear_reason = "explicit-clear" }))
        × ((j : ℕ) → j ≢ i → get_elem? t.items j ≡ get_elem? one_recent.items j)
        × (t.by_uid ≡ one_recent.by_uid)
        × (t.refused ≡ one_recent.refused))
update_cleared_exact_example =
    update_cleared_exact one_recent "f-1" 1050 "explicit-clear" one_recent_kept

abbrev refusal : RefusedFault
refusal = record {
  fault_uid = "f-2";
  manifest = pod_kill;
  refused_at = 1004;
  stage = some ExecutorStage.safety;
  reason = "tier-not-permitted";
}

abbrev one_refused : History
one_refused = push_refused (new_history (pos 10)) refusal

list_refused_exact_example :
    let all =
      keep
        (λ (rf : RefusedFault). targets_namespace rf.manifest "shop")
        (reverse one_refused.refused) in
    (list_refused one_refused "shop" 0 ≡ all) × (list_refused one_refused "shop" 5 ≡ take 5 all)
list_refused_exact_example = list_refused_exact one_refused "shop" 4

mesh_plain : is_outage_kind pod_kill.engine pod_kill.resource_kind ≡ false
unfolding is_outage_kind
mesh_plain = refl

pods_narrowed : (narrow_pod_selector nothing_excluded false pod_kill).error ≡ none
unfolding narrow_pod_selector is_outage_kind
pods_narrowed = refl

narrow_pod_selector-Reaches_example :
    ((site : SelectorSite)
      → In site (find_selector_sites pod_spec)
      → is_main_path site.path ≡ false
      → Reaches nothing_excluded pod_kill site)
    × MainReaches nothing_excluded false pod_kill
        (narrow_pod_selector nothing_excluded false pod_kill).manifest.spec
narrow_pod_selector-Reaches_example =
    narrow_pod_selector-Reaches nothing_excluded false pod_kill pod_spec refl mesh_plain refl
      pods_narrowed

apply-Admitted_example :
    let n = named net config host pod_kill in
    let (t, o) = apply net config host idle pod_kill in
    (((e : ExecutorError) × (o ≡ refused e)) × (t.books.registry ≡ idle.books.registry))
    ⊎ (Admitted net config host n
        × Fate host idle.books.registry t.books.registry (prepared net config host n) o)
apply-Admitted_example = apply-Admitted net config host idle pod_kill
