-- ===== src/Serdes/Tests.antt =====
-- Numbers written and read at concrete bytes.
use napi.Prelude.{◌≡◌, refl, some, [], ◌∷◌, ◌++◌, length}
use napi.Serdes.Roundtrip.{uint32, uint64, write_items, read_items, read_items-write_items}

read_items-write_items_example :
    let items = uint32 70000 ∷ uint64 3 4294967295 ∷ [] in
    let bytes = write_items items (9 ∷ []) ++ 7 ∷ [] in
    read_items items (record { bytes = bytes; offset = 1 })
    ≡ some (items, record { bytes = bytes; offset = length (write_items items (9 ∷ [])) })
read_items-write_items_example =
    read_items-write_items (uint32 70000 ∷ uint64 3 4294967295 ∷ []) (9 ∷ []) (7 ∷ []) refl
