-- ===== src/Executor/Compat/Sparing.antt =====
-- What a container must have for the checks of pkg/executor/compat.go to pass it.
use simian_agent.Prelude.{
  any, In, contains→In, ℤ, String, refl, inl, inr, Bool, true, false, not, Option, some, List,
  arith, Bool-cases, ◌≡◌, ◌≢◌, ◌⊎◌, ◌&&◌, ◌||◌, ◌==◌, nat_Eq, string_Eq,
}
use simian_agent.Prelude.Lists.{any_complete}
use text.Mathlib.TextEquality.{eq_iff}
use simian_agent.Executor.Paths.Matching.{chaos_path_matches_exact, Globs}
use simian_agent.Simian.Types.{Fields}
use simian_agent.Executor.Compat.{
  is_read_only, mounts_at, is_unwritable, mount_paths, clean, has_grpc_name, probe_port, grpc_port,
  spec_text, ContainerPort, HttpGet, gets_probes, Probe, is_meant, breaks_http, Container, equal_ℤ,
  probes_grpc, hits_probe,
}

-- No gRPC is served on the port: by no probe's word, and by no port's name.
pub record ServesNoGrpc (c : Container) (port : ℤ) : Type 0 where
  pub liveness : (probe : Probe) → c.liveness ≡ some probe → probe.grpc ≢ some port
  pub readiness : (probe : Probe) → c.readiness ≡ some probe → probe.grpc ≢ some port
  pub startup : (probe : Probe) → c.startup ≡ some probe → probe.grpc ≢ some port
  pub ports :
      (cp : ContainerPort)
      → In cp c.ports
      → cp.container_port ≡ port
      → has_grpc_name cp.name ≡ false

-- A probe's request stays clear of the paths that the fault is for.
abbrev pub IsClear : Container → ℤ → String → Option Probe → Type 0
IsClear c port glob o =
    (probe : Probe) (get : HttpGet)
    → o ≡ some probe
    → probe.http_get ≡ some get
    → probe_port c get.port ≡ port
    → ¬ ((glob ≡ "") ⊎ Globs glob get.path)

-- What an HTTPChaos on `port` leaves alone in a container.
pub record SparesProbes (spec : Option Fields) (port : ℤ) (c : Container) : Type 0 where
  pub no_grpc : ServesNoGrpc c port
  pub liveness : gets_probes spec ≡ true → IsClear c port (spec_text spec "path") c.liveness
  pub startup : gets_probes spec ≡ true → IsClear c port (spec_text spec "path") c.startup

-- What a fault that writes into the root filesystem finds in a container that it is meant for.
pub record IsWritable (kind : String) (spec : Option Fields) (c : Container) : Type 0 where
  pub root : is_meant spec c ≡ true → c.read_only ≢ some true
  pub volume :
      is_meant spec c ≡ true
      → kind ≡ "IOChaos"
      → spec_text spec "volumePath" ≢ ""
      → In (clean (spec_text spec "volumePath")) (mount_paths c)

pub equal_ℤ_refl : (a : ℤ) → equal_ℤ a a ≡ true
equal_ℤ_refl a = ground arith

pub probes_grpc_hit :
    (port : ℤ) (o : Option Probe) (probe : Probe)
    → o ≡ some probe
    → probe.grpc ≡ some port
    → probes_grpc port o ≡ true
unfolding probes_grpc
probes_grpc_hit port o probe e g = rw (e, g) (equal_ℤ_refl port)

pub hits_probe_hit :
    (c : Container) (port : ℤ) (glob : String) (o : Option Probe) (probe : Probe) (get : HttpGet)
    → o ≡ some probe
    → probe.http_get ≡ some get
    → probe_port c get.port ≡ port
    → (glob ≡ "") ⊎ Globs glob get.path
    → hits_probe c port glob o ≡ true
unfolding hits_probe
hits_probe_hit c port glob o probe get e g q m =
    rw (e, g, q, equal_ℤ_refl port) ((chaos_path_matches_exact glob get.path).1 m)

pub not_both : {b : Bool} → b ≡ true → b ≡ false → ⊥
not_both t f = cc

pub or_false : (a b : Bool) → (a || b) ≡ false → (a ≡ false) × (b ≡ false)
or_false false b h = (refl, h)
or_false true b h = absurd (cc)

pub and_false : (a b : Bool) → a ≡ true → (a && b) ≡ false → b ≡ false
and_false true b t h = h
and_false false b t h = absurd (cc)

pub any_none :
    {A : Type 0} (f : A → Bool) (xs : List A) (a : A) → any f xs ≡ false → In a xs → f a ≡ false
any_none f xs a h i = elim (Bool-cases (f a)) [
  | inl t ↦ absurd (not_both (any_complete f xs a i t) h)
  | inr n ↦ n
]

module _ (spec : Option Fields) (port : ℤ) (c : Container)
    (spared : breaks_http spec port c ≡ false) where
  pub breaks_parts :
      (grpc_port c port ≡ false)
      × ((gets_probes spec
            && (hits_probe c port (spec_text spec "path") c.liveness
                || hits_probe c port (spec_text spec "path") c.startup))
          ≡ false)
  unfolding breaks_http
  breaks_parts = or_false (grpc_port c port) _ spared

  pub quiet :
      (probes_grpc port c.liveness ≡ false)
      × (probes_grpc port c.readiness ≡ false)
      × (probes_grpc port c.startup ≡ false)
      × (any (λ cp. equal_ℤ cp.container_port port && has_grpc_name cp.name) c.ports ≡ false)
  unfolding grpc_port
  quiet =
      let (probed, unnamed) = or_false _ _ breaks_parts.0 in
      let (early, s) = or_false _ _ probed in
      let (l, r) = or_false (probes_grpc port c.liveness) _ early in (l, r, s, unnamed)

  pub clear :
      gets_probes spec ≡ true
      → (hits_probe c port (spec_text spec "path") c.liveness ≡ false)
        × (hits_probe c port (spec_text spec "path") c.startup ≡ false)
  clear g = or_false _ _ (and_false (gets_probes spec) _ g breaks_parts.1)

  pub spares : SparesProbes spec port c
  spares = record {
    no_grpc = record {
      liveness = λ probe e g. not_both (probes_grpc_hit port c.liveness probe e g) quiet.0;
      readiness = λ probe e g. not_both (probes_grpc_hit port c.readiness probe e g) quiet.1;
      startup = λ probe e g. not_both (probes_grpc_hit port c.startup probe e g) quiet.2;
      ports = λ cp i e.
          and_false (equal_ℤ cp.container_port port) (has_grpc_name cp.name)
            (rw e (equal_ℤ_refl port))
            (any_none (λ cp. equal_ℤ cp.container_port port && has_grpc_name cp.name) c.ports cp
              quiet.3 i);
    };
    liveness = λ g probe get e q p m.
        not_both (hits_probe_hit c port (spec_text spec "path") c.liveness probe get e q p m)
          (clear g).0;
    startup = λ g probe get e q p m.
        not_both (hits_probe_hit c port (spec_text spec "path") c.startup probe get e q p m)
          (clear g).1;
  }

pub is_unwritable-IsWritable :
    (kind : String) (spec : Option Fields) (c : Container)
    → is_unwritable kind spec c ≡ false
    → IsWritable kind spec c
unfolding is_unwritable
is_unwritable-IsWritable kind spec c h = record {
  root = λ m e.
      let (r, v) = or_false (is_read_only c.read_only) _ (and_false (is_meant spec c) _ m h) in
      not_both (unfold is_read_only in rw e refl) r;
  volume = λ m k v.
      let (r, missing) =
        or_false (is_read_only c.read_only) _ (and_false (is_meant spec c) _ m h) in
      contains→In (mount_paths c) (clean (spec_text spec "volumePath")) (
        mounted (kind == "IOChaos") (spec_text spec "volumePath" == "")
          (mounts_at c (spec_text spec "volumePath")) ((eq_iff kind "IOChaos").1 k)
          (blank (spec_text spec "volumePath") v) missing);
}
  where
    mounted : (a b m : Bool) → a ≡ true → b ≡ false → (a && not b && not m) ≡ false → m ≡ true
    mounted a b m t f h = ground (arith, t, f, h)

    blank : (p : String) → p ≢ "" → (p == "") ≡ false
    blank p n = ground (arith, n, eq_iff p "")
