-- ===== src/Lease/Registry/Sizes.antt =====
-- How many leases each operation of the registry leaves.
use simian_agent.Prelude.{
  length, ℕ, suc, String, refl, inl, inr, some, arith, Option-cases, ◌≤◌, ◌≡◌, nat_Eq, string_Eq,
}
use simian_agent.Prelude.Assoc.{lookup, length-insert-le, length-delete-le, length-insert_known}
use simian_agent.Simian.Types.{FaultManifest}
use simian_agent.Lease.Registry.{Registry, register, forget, heartbeat, heartbeat_at, leased_as}

pub length-register :
    (r : Registry) (now : ℕ) (uid engine_uid : String) (m : FaultManifest) (deadline : ℕ)
    → length (register r now uid engine_uid m deadline).0.items ≤ suc (length r.items)
unfolding register
length-register r now uid engine_uid m deadline =
    length-insert-le uid (leased_as r now uid engine_uid m deadline) r.items

pub length-forget :
    (r s : Registry) (uid : String) → forget r uid ≡ some s → length s.items ≤ length r.items
unfolding forget
length-forget r s uid e = ground (arith, length-delete-le uid r.items)

pub length-heartbeat :
    (r : Registry) (now : ℕ) (uid : String) → length (heartbeat r now uid).items ≡ length r.items
unfolding heartbeat
length-heartbeat r now uid = elim (Option-cases (lookup uid r.items)) [
  | inl missing ↦ rw (missing, heartbeat_at) refl
  | inr (af, found) ↦
      rw (found, heartbeat_at)
        (length-insert_known uid af (record af { last_beat = now }) r.items found)
]
