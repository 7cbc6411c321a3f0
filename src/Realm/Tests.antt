-- ===== src/Realm/Tests.antt =====
-- Concrete runs of the theorems on realm frames.
use napi.Prelude.{◌+◌, ◌≡◌, none, some, arith, []}
use napi.Realm.{Realms, in_realm_frame, current_context, current_realm_anchor}
use napi.Realm.Nesting.{Acts, done, enter, leave, call, run, freed_times, anchored, call-restores}

abbrev main_realm : Realms
main_realm = record { context = 1; realm_frames = []; last_realm_scope = 4; freed = [] }

-- Two scopes of realm 2, a try to leave the outer one first, and a callback that leaves one open.
abbrev busy : Acts
busy = enter 2 (some 20) (leave 4 (call none none (enter 2 (some 20) done) (leave 5 done)))

call-restores_example :
    let r = in_realm_frame (some 3) none (run busy) main_realm in
    (r.realm_frames ≡ [])
    × (current_context r ≡ current_context main_realm)
    × (current_realm_anchor r ≡ current_realm_anchor main_realm)
    × (freed_times 20 r.freed ≡ freed_times 20 [] + anchored 20 busy)
call-restores_example = call-restores 20 (some 3) none busy main_realm (omega arith)
