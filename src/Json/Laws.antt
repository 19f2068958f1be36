-- ===== src/Json/Laws.antt =====
-- Reading a dict after a write.
use forza_motorsport_linux.Base.{String, ◌≡◌, ok, arith, ◌==◌, string_eq, if◌then◌else◌}
use forza_motorsport_linux.Json.{Json, Fields, end, field, get_item, set_item}

pub get_item-set_item :
    (j k : String) (v : Json) (fields : Fields)
    → get_item j (set_item k v fields) ≡ (if k == j then ok v else get_item j fields)
unfolding get_item set_item
get_item-set_item j k v end = ground arith
get_item-set_item j k v (field i w rest) = ground (arith, get_item-set_item j k v rest)
