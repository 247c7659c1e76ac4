-- ===== src/Loop/Settings/Waking.antt =====
-- The loop of pkg/loop/loop.go and operators who set Control of pkg/loop/control.go, in any order. Set
-- is two steps, since it signals after it has unlocked.
use simian_agent.Prelude.{ℕ, suc, Bool, true, false, ◌<◌, ◌≡◌, ◌⊎◌, if◌then◌else◌}
use simian_agent.Loop.Settings.{Synced, Source, store, signal, sync, Settings, Control}

-- The control, what the loop last copied, whether it has taken a signal and not looked since, and how
-- many operators have stored settings and not signalled yet.
pub record Shared : Type 0 where
  pub control : Control
  pub copy : Synced
  pub woken : Bool
  pub pending : ℕ

-- The loop copies the settings.
abbrev pub look : Shared → Shared
look w = record w { copy = (sync w.control).0; woken = false }

-- The loop takes the signal.
abbrev pub wake : Shared → Shared
wake w = record w { control = record w.control { changed = false }; woken = true }

-- The loop looks at the start of a cycle, before a namespace, or once woken.
pub data Step : Shared → Shared → Type 0 where
  stores :
      (w : Shared) (s : Settings) (src : Source)
      → Step w (record w { control = store w.control s src; pending = suc w.pending })
  signals :
      (w : Shared) (n : ℕ)
      → w.pending ≡ suc n
      → Step w (record w { control = signal w.control; pending = n })
  looks : (w : Shared) → Step w (look w)
  wakes : (w : Shared) → w.control.changed ≡ true → Step w (wake w)

pub data Reach (start : Shared) : Shared → Type 0 where
  starts : Reach start start
  goes : (a b : Shared) → Reach start a → Step a b → Reach start b

-- What the loop does of itself: if a signal waits it takes it and looks, and if it has been woken it
-- looks.
unfoldable pub caught_up : Shared → Shared
caught_up w = if w.control.changed then look (wake w) else if w.woken then look w else w

-- The loop's copy is that of the settings, field by field.
pub record Copies (copy : Synced) (s : Settings) : Type 0 where
  pub namespaces : copy.namespaces ≡ s.namespaces
  pub interval : copy.interval ≡ s.interval
  pub max_faults : copy.max_faults_per_cycle ≡ s.max_faults_per_cycle
  pub max_severity : copy.max_severity_per_cycle ≡ s.max_severity_per_cycle
  pub hypothesis : copy.hypothesis ≡ s.hypothesis
  pub paused : copy.paused ≡ s.paused

-- The change is on its way, or there.
abbrev Noticed : Shared → Type 0
Noticed w =
    (0 < w.pending)
    ⊎ ((w.control.changed ≡ true) ⊎ ((w.woken ≡ true) ⊎ Copies w.copy w.control.settings))
