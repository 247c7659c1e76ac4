-- ===== src/Loop/Health/Healthy.antt =====
-- The health gate of pkg/loop/health.go, beside the notion of a healthy namespace.
use simian_agent.Prelude.{
  subst, In, pos, ltb_ℤ, leb_ℤ, ℕ, String, refl, sym, inl, inr, true, false, Option, none, some,
  List, arith, ltb, Bool-cases, [], ◌%◌, ◌<◌, ◌≡◌, ◌∙◌, ◌∷◌,
}
use simian_agent.Loop.Health.{
  check_with, after_baseline, check, not_ready, ready_pods_for, check_workloads, ActiveFault,
  pods_of, WorkloadStatus, count_ready, int32_of, Snapshot, HealthGate,
}

-- The workload has as many ready pods as its baseline wants.
pub Ready : Option Snapshot → WorkloadStatus → Type 0
Ready snap w = leb_ℤ w.desired_replicas (pos (count_ready (pods_of snap w.name))) ≡ true

-- Everything is configured, the baseline is known, no fault is active, and every workload of the
-- baseline is ready in the snapshot.
pub record Healthy (g : HealthGate) (ns : String) : Type 0 where
  pub baselines : String → Option (List WorkloadStatus)
  pub topology : String → Option (Option Snapshot)
  pub active : String → Option (List ActiveFault)
  pub has_baselines : g.baselines ≡ some baselines
  pub has_topology : g.topology ≡ some topology
  pub has_active : g.active ≡ some active
  pub workloads : List WorkloadStatus
  pub snapshot : Option Snapshot
  pub known : baselines ns ≡ some workloads
  pub seen : topology ns ≡ some snapshot
  pub calm : active ns ≡ some []
  pub ready : (w : WorkloadStatus) → In w workloads → Ready snapshot w

-- No workload has so many pods that an int32 cannot count them.
unfoldable pub Countable : HealthGate → String → Type 0
Countable g ns =
    (topology : String → Option (Option Snapshot)) (snap : Option Snapshot) (w : String)
    → g.topology ≡ some topology
    → topology ns ≡ some snap
    → count_ready (pods_of snap w) < 2147483648

int32_of_small : (n : ℕ) → n < 2147483648 → int32_of n ≡ pos n
unfolding int32_of
int32_of_small n h =
    let same : n % 4294967296 ≡ n = omega (arith, h) in
    let small : ltb n 2147483648 ≡ true = ground arith in rw (same, small) refl

module _ (snap : Option Snapshot)
    (fits : (w : String) → count_ready (pods_of snap w) < 2147483648) where
  ready_sound :
      (ws : List WorkloadStatus) (w : WorkloadStatus)
      → check_workloads snap ws ≡ none
      → In w ws
      → Ready snap w
  unfolding check_workloads Ready ready_pods_for
  ready_sound [] w e i = absurd i
  ready_sound (x ∷ ws) w e i =
      let same = int32_of_small (count_ready (pods_of snap x.name)) (fits x.name) in
      elim (Bool-cases (ltb_ℤ (ready_pods_for snap x.name) x.desired_replicas)) [
        | inl short ↦
            let z : some (not_ready x.name) ≡ none = sym (rw short refl) ∙ e in absurd (cc)
        | inr enough ↦ elim i [
          | inl p ↦
              let here : Ready snap x =
                ready_of x (subst (λ n. ltb_ℤ n x.desired_replicas ≡ false) same enough) in
              subst (Ready snap) (sym p) here
          | inr j ↦ ready_sound ws w (sym (rw enough refl) ∙ e) j
        ]
      ]
    where
      ready_of :
          (x : WorkloadStatus)
          → ltb_ℤ (pos (count_ready (pods_of snap x.name))) x.desired_replicas ≡ false
          → Ready snap x
      ready_of x h = ground arith

  ready_complete :
      (ws : List WorkloadStatus)
      → ((w : WorkloadStatus) → In w ws → Ready snap w)
      → check_workloads snap ws ≡ none
  unfolding check_workloads Ready ready_pods_for
  ready_complete [] h = refl
  ready_complete (x ∷ ws) h =
      let same = int32_of_small (count_ready (pods_of snap x.name)) (fits x.name) in
      let here = h x (inl refl) in
      let enough : ltb_ℤ (pos (count_ready (pods_of snap x.name))) x.desired_replicas ≡ false =
        ground arith in
      rw (same, enough) (ready_complete ws (λ w i. h w (inr i)))

module _ (g : HealthGate) (ns : String) (fits : Countable g ns) where
  module _ (baselines : String → Option (List WorkloadStatus))
      (topology : String → Option (Option Snapshot)) (active : String → Option (List ActiveFault))
      (p : g.baselines ≡ some baselines) (q : g.topology ≡ some topology)
      (r : g.active ≡ some active) where
    answers_sound :
        (b : Option (List WorkloadStatus)) (t : Option (Option Snapshot))
        (a : Option (List ActiveFault))
        → baselines ns ≡ b
        → topology ns ≡ t
        → active ns ≡ a
        → after_baseline b t a ≡ none
        → Healthy g ns
    unfolding after_baseline Countable
    answers_sound none t a x y z e = absurd (cc)
    answers_sound (some ws) t none x y z e = absurd (cc)
    answers_sound (some ws) t (some (af ∷ afs)) x y z e = absurd (cc)
    answers_sound (some ws) none (some []) x y z e = absurd (cc)
    answers_sound (some ws) (some snap) (some []) x y z e = record {
      baselines = baselines;
      topology = topology;
      active = active;
      has_baselines = p;
      has_topology = q;
      has_active = r;
      workloads = ws;
      snapshot = snap;
      known = x;
      seen = y;
      calm = z;
      ready = λ w i. ready_sound snap (λ n. fits topology snap n q y) ws w e i;
    }

  configured_sound :
      (b : Option (String → Option (List WorkloadStatus)))
      (t : Option (String → Option (Option Snapshot)))
      (a : Option (String → Option (List ActiveFault)))
      → g.baselines ≡ b
      → g.topology ≡ t
      → g.active ≡ a
      → check_with b t a ns ≡ none
      → Healthy g ns
  unfolding check_with
  configured_sound none t a p q r e = absurd (cc)
  configured_sound (some b) none a p q r e = absurd (cc)
  configured_sound (some b) (some t) none p q r e = absurd (cc)
  configured_sound (some b) (some t) (some a) p q r e =
      answers_sound b t a p q r (b ns) (t ns) (a ns) refl refl refl e

  -- The health gate lets a cycle run exactly when everything is configured, the namespace has a
  -- baseline, no fault is active in it, and each workload of the baseline has as many ready pods as
  -- it wants, if no workload has more pods than an int32 counts.
  pub check-Healthy : (check g ns ≡ none → Healthy g ns) × (Healthy g ns → check g ns ≡ none)
  unfolding check check_with after_baseline Countable
  check-Healthy = (
    λ e. configured_sound g.baselines g.topology g.active refl refl refl e,
    λ h.
        rw (h.has_baselines, h.has_topology, h.has_active, h.known, h.seen, h.calm)
          (ready_complete h.snapshot (λ n. fits h.topology h.snapshot n h.has_topology h.seen)
            h.workloads h.ready),
  )
