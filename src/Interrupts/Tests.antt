-- ===== src/Interrupts/Tests.antt =====
-- Concrete runs of the theorems on interrupts.
use napi.Prelude.{◌≡◌, refl, none, some, arith}
use napi.Interrupts.{
  embedder, shared, Runtime, attach_runtime_interrupts, detach_runtime_interrupts,
  installed_runtime_interrupts,
}
use napi.Interrupts.Sharing.{detach-attach}

abbrev embedded : Runtime
embedded = record { handler = embedder 3; records = λ p. none }

detach-attach_example :
    let r1 = attach_runtime_interrupts (some 50) 1 embedded in
    let r2 = attach_runtime_interrupts none 2 r1.1 in
    (r1.0 ≡ some 50)
    × (r2.0 ≡ some 50)
    × (r2.1.handler ≡ shared 50)
    × ((detach_runtime_interrupts (some 50) 2 (detach_runtime_interrupts (some 50) 1 r2.1)).handler
        ≡ embedder 3)
    × ((detach_runtime_interrupts (some 50) 1 (detach_runtime_interrupts (some 50) 2 r2.1)).handler
        ≡ embedder 3)
    × ((detach_runtime_interrupts (some 50) 2 (detach_runtime_interrupts (some 50) 1 r2.1)).records
          50
        ≡ none)
    × ((detach_runtime_interrupts (some 50) 1 (detach_runtime_interrupts (some 50) 2 r2.1)).records
          50
        ≡ none)
    × ((detach_runtime_interrupts (some 50) 1 r2.1).handler ≡ shared 50)
unfolding installed_runtime_interrupts
detach-attach_example = detach-attach 50 1 2 embedded none (omega arith) refl
