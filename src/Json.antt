-- ===== src/Json.antt =====
-- The values that `json.loads` returns and `canonical_json` takes (forza_bootstrap/safeio.py,
-- forza_bootstrap/model.py). A dict has its keys as native strings, since the program only
-- compares them with literals; its values are looked up by the first entry of a key, and
-- `_reject_duplicate_keys` leaves one entry for each.
pub mod Laws
use forza_motorsport_linux.Base.{
  ℕ, String, Text, Bool, true, false, ◌&&◌, List, [], ◌∷◌, Result, ok, err, key_error, ◌==◌,
  string_eq, contains, all_of, if◌then◌else◌,
}

mutual
  -- `int n` is n, `negative n` is -(n + 1), and `float` keeps the literal's text.
  pub data Json : Type 0 where
    null : Json
    bool : Bool → Json
    int : ℕ → Json
    negative : ℕ → Json
    float : Text → Json
    str : Text → Json
    list : Items → Json
    dict : Fields → Json

  pub data Items : Type 0 where
    nil : Items
    item : Json → Items → Items

  pub data Fields : Type 0 where
    end : Fields
    field : String → Json → Fields → Fields

-- list(d)
unfoldable pub keys : Fields → List String
keys end = []
keys (field k v rest) = k ∷ keys rest

-- d[key]
unfoldable pub get_item : String → Fields → Result Json
get_item key end = err (key_error key)
get_item key (field k v rest) = if k == key then ok v else get_item key rest

-- d[key] = value
unfoldable pub set_item : String → Json → Fields → Fields
set_item key value end = field key value end
set_item key value (field k v rest) =
    if k == key then field k value rest else field k v (set_item key value rest)

-- set(d) == expected
unfoldable pub has_keys : List String → Fields → Bool
unfolding keys
has_keys expected fields =
    all_of (contains (keys fields)) expected && all_of (contains expected) (keys fields)

unfoldable pub to_items {ℓ} : {A : Type ℓ} → (A → Json) → List A → Items
to_items f [] = nil
to_items f (x ∷ xs) = item (f x) (to_items f xs)
