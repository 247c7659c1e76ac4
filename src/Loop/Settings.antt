-- ===== src/Loop/Settings.antt =====
-- pkg/loop/control.go: the settings of autonomous mode, the limits that they must fit under, and the
-- control that hands them to the loop. `max_concurrent_faults` is 0 when there is no limit. The
-- loop's copy is what sync in pkg/loop/loop.go makes of it.
pub mod Fitting
pub mod Waking
use simian_agent.Prelude.{
  contains, ℤ, pos, ltb_ℤ, leb_ℤ, ℕ, String, Bool, true, false, not, Option, none, some, List, ltb,
  [], ◌&&◌, ◌||◌, ◌∷◌, ◌==◌, if◌then◌else◌, nat_Eq, string_Eq,
}
use simian_agent.Simian.Types.{BlastRadiusTier}

pub record Settings : Type 0 where
  pub enabled : Bool
  pub namespaces : List String
  pub interval : ℤ
  pub max_faults_per_cycle : ℤ
  pub max_severity_per_cycle : BlastRadiusTier
  pub hypothesis : String
  pub paused : List String

abbrev pub pause_all : String
pause_all = "*"

unfoldable pub is_paused : Settings → String → Bool
is_paused s ns = contains s.paused pause_all || contains s.paused ns

pub record Limits : Type 0 where
  pub max_concurrent_faults : ℕ
  pub permitted_tiers : List BlastRadiusTier
  pub arenas : List String
  pub min_interval : ℤ
  pub install : Option Settings

-- time.Minute.
abbrev pub default_min_interval : ℤ
default_min_interval = pos 60000000000

-- The zero value.
abbrev pub no_settings : Settings
no_settings = record {
  enabled = false;
  namespaces = [];
  interval = pos 0;
  max_faults_per_cycle = pos 0;
  max_severity_per_cycle = "";
  hypothesis = "";
  paused = [];
}

unfoldable pub inst_of : Limits → Settings
inst_of lim = elim lim.install [ none ↦ no_settings | some s ↦ s ]

unfoldable pub min_interval_of : Limits → ℤ
min_interval_of lim =
    if leb_ℤ lim.min_interval (pos 0) then default_min_interval else lim.min_interval

pub data SettingsError : Type 0 where
  no_namespace : SettingsError
  no_arena : String → SettingsError
  interval_under too_few_faults too_many_faults tier_not_permitted : SettingsError

unfoldable pub is_known_namespace : Limits → String → Bool
unfolding inst_of
is_known_namespace lim ns = contains lim.arenas ns || contains (inst_of lim).namespaces ns

unfoldable pub check_namespaces : Limits → List String → Option SettingsError
unfolding is_known_namespace
check_namespaces lim [] = none
check_namespaces lim (ns ∷ nss) =
    let rest = check_namespaces lim nss in
    if is_known_namespace lim ns then rest else some (no_arena ns)

pub equal_ints : ℤ → ℤ → Bool
equal_ints a b = leb_ℤ a b && leb_ℤ b a

unfoldable pub check_interval : Limits → Settings → Option SettingsError
unfolding min_interval_of inst_of equal_ints
check_interval lim s =
    if ltb_ℤ s.interval (min_interval_of lim) && not (equal_ints s.interval (inst_of lim).interval)
    then some interval_under
    else none

unfoldable pub is_own : Limits → (Settings → Bool) → Bool
is_own lim same = elim lim.install [ none ↦ false | some inst ↦ same inst ]

unfoldable pub check_faults : Limits → Settings → Option SettingsError
unfolding is_own equal_ints
check_faults lim s =
    if is_own lim (λ inst. equal_ints s.max_faults_per_cycle inst.max_faults_per_cycle)
    then none
    else if ltb_ℤ s.max_faults_per_cycle (pos 1)
    then some too_few_faults
    else if ltb 0 lim.max_concurrent_faults
        && ltb_ℤ (pos lim.max_concurrent_faults) s.max_faults_per_cycle
    then some too_many_faults
    else none

unfoldable pub is_empty {ℓ} : {A : Type ℓ} → List A → Bool
is_empty [] = true
is_empty (x ∷ xs) = false

unfoldable pub check_tier : Limits → Settings → Option SettingsError
unfolding is_own is_empty
check_tier lim s =
    if not (is_own lim (λ inst. s.max_severity_per_cycle == inst.max_severity_per_cycle))
      && not (s.max_severity_per_cycle == "")
      && not (is_empty lim.permitted_tiers)
      && not (contains lim.permitted_tiers s.max_severity_per_cycle)
    then some tier_not_permitted
    else none

unfoldable pub check_enabled : Settings → Option SettingsError
unfolding is_empty
check_enabled s = if s.enabled && is_empty s.namespaces then some no_namespace else none

pub first_error : Option SettingsError → Option SettingsError → Option SettingsError
first_error (some e) next = some e
first_error none next = next

-- `none` accepts the settings.
unfoldable pub validate : Settings → Limits → Option SettingsError
unfolding first_error check_enabled check_namespaces check_interval check_faults check_tier
validate s lim = first_error (check_enabled s) (
    first_error (check_namespaces lim s.namespaces)
      (first_error (check_interval lim s) (first_error (check_faults lim s) (check_tier lim s))))

pub record Source : Type 0 where
  pub by : String
  pub at : ℕ

-- `changed` is whether the channel of capacity 1 holds a signal.
pub record Control : Type 0 where
  pub settings : Settings
  pub defaults : Settings
  pub source : Source
  pub changed : Bool

unfoldable pub new_control : Settings → Control
new_control defaults = record {
  settings = defaults;
  defaults = defaults;
  source = record { by = ""; at = 0 };
  changed = false;
}

unfoldable pub get : Control → Settings × Source
get c = (c.settings, c.source)

-- Set's critical section.
unfoldable pub store : Control → Settings → Source → Control
store c s src = record c { settings = s; source = src }

-- Set's send, after it has unlocked. A signal that is there already is enough.
unfoldable pub signal : Control → Control
signal c = record c { changed = true }

unfoldable pub set : Control → Settings → Source → Control
unfolding store signal
set c s src = signal (store c s src)

-- What the loop keeps of the settings.
pub record Synced : Type 0 where
  pub namespaces : List String
  pub interval : ℤ
  pub max_faults_per_cycle : ℤ
  pub max_severity_per_cycle : BlastRadiusTier
  pub hypothesis : String
  pub paused : List String

-- With a control. The answer is whether there is anything to run.
unfoldable pub sync : Control → Synced × Bool
unfolding get is_empty
sync c =
    let s = (get c).0 in
    (
      record {
        namespaces = s.namespaces;
        interval = s.interval;
        max_faults_per_cycle = s.max_faults_per_cycle;
        max_severity_per_cycle = s.max_severity_per_cycle;
        hypothesis = s.hypothesis;
        paused = s.paused;
      },
      s.enabled && not (is_empty s.namespaces) && ltb_ℤ (pos 0) s.interval,
    )
