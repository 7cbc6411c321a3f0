-- ===== src/Interrupts/Sharing.antt =====
-- The first env to attach installs the shared handler, and the last one to detach takes it off.
use napi.Prelude.{ℕ, ◌≡◌, ◌≢◌, Option, none, some, arith}
use napi.Interrupts.{
  shared, Runtime, installed_runtime_interrupts, attach_runtime_interrupts,
  detach_runtime_interrupts, remove_env, same_record, add_env,
}

-- Where no shared record is installed and `new` gives a record: an env that attaches
-- installs the record, a second one joins the same record, and when both have detached, in
-- whichever order, the handler from before is back and the record is freed.
pub detach-attach :
    (p e1 e2 : ℕ) (rt : Runtime) (fresh : Option ℕ)
    → e1 ≢ e2
    → installed_runtime_interrupts rt ≡ none
    → let r1 = attach_runtime_interrupts (some p) e1 rt in
      let r2 = attach_runtime_interrupts fresh e2 r1.1 in
      (r1.0 ≡ some p)
      × (r2.0 ≡ some p)
      × (r2.1.handler ≡ shared p)
      × ((detach_runtime_interrupts
            (some p)
            e2
            (detach_runtime_interrupts (some p) e1 r2.1)).handler
          ≡ rt.handler)
      × ((detach_runtime_interrupts
            (some p)
            e1
            (detach_runtime_interrupts (some p) e2 r2.1)).handler
          ≡ rt.handler)
      × ((detach_runtime_interrupts
              (some p)
              e2
              (detach_runtime_interrupts (some p) e1 r2.1)).records
            p
          ≡ none)
      × ((detach_runtime_interrupts
              (some p)
              e1
              (detach_runtime_interrupts (some p) e2 r2.1)).records
            p
          ≡ none)
      × ((detach_runtime_interrupts (some p) e1 r2.1).handler ≡ shared p)
unfolding attach_runtime_interrupts detach_runtime_interrupts add_env remove_env same_record
    installed_runtime_interrupts
detach-attach p e1 e2 rt fresh n h = ground (arith, n, h)
