-- ===== src/Executor/Compat/Fitting.antt =====
-- The faults that pass the check of pkg/executor/compat.go.
use simian_agent.Prelude.{
  any, In, ℤ, String, refl, inl, inr, Bool, true, false, none, some, List, ◌≡◌, ◌⊎◌, ◌==◌, nat_Eq,
  string_Eq,
}
use simian_agent.Executor.Compat.Sparing.{
  is_unwritable-IsWritable, IsWritable, SparesProbes, spares, any_none,
}
use text.Mathlib.TextEquality.{eq_iff}
use simian_agent.Executor.Compat.{
  writes_root_fs, check_http_chaos_probes, pods_for, check_target_compat, Pod, spec_int, TargetRef,
  engine_chaos_mesh, FaultManifest, TargetPods, Reading, refuse_if, is_unwritable, any_container,
  breaks_http, Container,
}

any_container_none :
    (unfit : Container → Bool) (tp : TargetPods) (targets : List TargetRef)
    → any_container unfit tp targets ≡ false
    → (t : TargetRef) (p : Pod) (c : Container) → In t targets
    → In p (pods_for tp t)
    → In c p
    → unfit c ≡ false
unfolding any_container
any_container_none unfit tp targets h t p c it ip ic =
    any_none unfit p c
      (any_none (λ q. any unfit q) (pods_for tp t) p
        (any_none (λ u. any (λ q. any unfit q) (pods_for tp u)) targets t h it) ip)
      ic

refuse_if-none : (b : Bool) → refuse_if b ≡ none → b ≡ false
unfolding refuse_if
refuse_if-none true h = cc
refuse_if-none false h = refl

-- What a fault must leave alone or find in a container that it targets.
abbrev pub IsCompatible : Reading → FaultManifest → Container → Type 0
IsCompatible rd m c =
    (m.resource_kind ≡ "HTTPChaos"
      → (port : ℤ) → spec_int rd m.spec "port" ≡ some port
      → SparesProbes m.spec port c)
    × ((m.resource_kind ≡ "IOChaos") ⊎ (m.resource_kind ≡ "DNSChaos")
        → IsWritable m.resource_kind m.spec c)

writes_root_fs_lem :
    (engine kind : String)
    → engine ≡ engine_chaos_mesh
    → (kind ≡ "IOChaos") ⊎ (kind ≡ "DNSChaos")
    → (writes_root_fs engine kind ≡ true) × ((kind == "HTTPChaos") ≡ false)
unfolding writes_root_fs
writes_root_fs_lem engine kind e (inl k) = rw (e, k) (refl, refl)
writes_root_fs_lem engine kind e (inr k) = rw (e, k) (refl, refl)

module _ (rd : Reading) (tp : TargetPods) (m : FaultManifest)
    (e : m.engine ≡ engine_chaos_mesh) where
  http_checked :
      m.resource_kind ≡ "HTTPChaos"
      → (port : ℤ) → spec_int rd m.spec "port" ≡ some port
      → check_target_compat rd (some tp) m ≡ none
      → refuse_if (any_container (breaks_http m.spec port) tp m.targets) ≡ none
  unfolding check_target_compat check_http_chaos_probes
  http_checked k port q h =
      let on_mesh : (m.engine == engine_chaos_mesh) ≡ true = (eq_iff _ _).1 e in
      let is_http : (m.resource_kind == "HTTPChaos") ≡ true = (eq_iff _ _).1 k in
      rw (on_mesh, is_http, check_http_chaos_probes, q) at h

  writes_checked :
      (m.resource_kind ≡ "IOChaos") ⊎ (m.resource_kind ≡ "DNSChaos")
      → check_target_compat rd (some tp) m ≡ none
      → refuse_if (any_container (is_unwritable m.resource_kind m.spec) tp m.targets) ≡ none
  unfolding check_target_compat
  writes_checked k h =
      let on_mesh : (m.engine == engine_chaos_mesh) ≡ true = (eq_iff _ _).1 e in
      let (writes, not_http) = writes_root_fs_lem m.engine m.resource_kind e k in
      rw (on_mesh, not_http, writes) at h

-- A Chaos Mesh fault that passes the check leaves alone, in every container of every pod that its
-- labelled targets are known to select, what must be left alone: an HTTPChaos on a port serves no
-- gRPC there and meets no liveness or startup probe, and an IOChaos or DNSChaos finds a root
-- filesystem that can be written to, and a volume mounted where it is to act.
pub check_target_compat-IsCompatible :
    (rd : Reading) (tp : TargetPods) (m : FaultManifest)
    → m.engine ≡ engine_chaos_mesh
    → check_target_compat rd (some tp) m ≡ none
    → (t : TargetRef) (p : Pod) (c : Container) → In t m.targets
    → In p (pods_for tp t)
    → In c p
    → IsCompatible rd m c
check_target_compat-IsCompatible rd tp m e h t p c it ip ic = (
  λ k port q. spares m.spec port c (
      any_container_none (breaks_http m.spec port) tp m.targets
        (refuse_if-none _ (http_checked rd tp m e k port q h)) t p c it ip ic),
  λ k. is_unwritable-IsWritable m.resource_kind m.spec c (
      any_container_none (is_unwritable m.resource_kind m.spec) tp m.targets
        (refuse_if-none _ (writes_checked rd tp m e k h)) t p c it ip ic),
)
