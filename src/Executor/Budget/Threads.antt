-- ===== src/Executor/Budget/Threads.antt =====
-- pkg/executor/executor.go: applies that run at once, as interleavings of their critical sections.
-- A thread is one call of Apply between its booking and its release. It registers its lease, records
-- the apply, and releases, in that order; on a refusal after the booking it releases at once. The
-- registry also loses faults to Clear and the reaper, and refreshes their beats, at any moment.
use simian_agent.Prelude.{ℕ, String, Bool, true, false, some, List, ◌≡◌, ◌∷◌, ◌++◌}
use simian_agent.Simian.Types.{FaultManifest}
use simian_agent.Lease.Registry.{Registry, register, forget, heartbeat}
use simian_agent.Executor.Budget.{Limits, Books, Booking, reserve, release, record_apply}

pub record Thread : Type 0 where
  pub booking : Booking
  pub is_leased : Bool

pub record System : Type 0 where
  pub books : Books
  pub threads : List Thread

abbrev pub with_registry : Books → Registry → Books
with_registry b r = record b { registry = r }

pub data Step (lim : Limits) (s t : System) : Type 0 where
  book :
      (now : ℕ) (nss : List String) (b : Books) (k : Booking)
      → reserve lim s.books now nss ≡ some (b, k)
      → t ≡ record { books = b; threads = record { booking = k; is_leased = false } ∷ s.threads }
      → Step lim s t
  lease :
      (before after : List Thread) (k : Booking) (now deadline : ℕ) (uid engine_uid : String)
      (m : FaultManifest)
      → s.threads ≡ before ++ record { booking = k; is_leased = false } ∷ after
      → t ≡ record {
        books = with_registry s.books (register s.books.registry now uid engine_uid m deadline).0;
        threads = before ++ record { booking = k; is_leased = true } ∷ after;
      }
      → Step lim s t
  stamp :
      (now : ℕ) (nss : List String)
      → t ≡ record s { books = record_apply s.books now nss }
      → Step lim s t
  leave :
      (before after : List Thread) (h : Thread)
      → s.threads ≡ before ++ h ∷ after
      → t ≡ record { books = (release s.books h.booking).0; threads = before ++ after }
      → Step lim s t
  end :
      (uid : String) (r : Registry)
      → forget s.books.registry uid ≡ some r
      → t ≡ record s { books = with_registry s.books r }
      → Step lim s t
  beat :
      (now : ℕ) (uid : String)
      → t ≡ record s { books = with_registry s.books (heartbeat s.books.registry now uid) }
      → Step lim s t

pub data Reach (lim : Limits) (s : System) : System → Type 0 where
  here : Reach lim s s
  next : {t u : System} → Reach lim s t → Step lim t u → Reach lim s u
