-- ===== src/Tests/Files.antt =====
-- The configuration file at concrete inputs.
use flydragon.Base.{◌≡◌, refl, arith, [], ◌∷◌, some, true, false}
use flydragon.Config.{ConfigMap, ltrim, rtrim, load, get_string, get_int_default}
use flydragon.Config.Lines.{IsItem}
use flydragon.Config.File.{write_items, AreItems, load-write_items}

-- `Port = 80`, `Log = a b`, and `Port = 81`, which does not count.
abbrev items : ConfigMap
items =
    (b'P' ∷ b'o' ∷ b'r' ∷ b't' ∷ [], b'8' ∷ b'0' ∷ [])
    ∷ (b'L' ∷ b'o' ∷ b'g' ∷ [], b'a' ∷ 32 ∷ b'b' ∷ [])
    ∷ (b'P' ∷ b'o' ∷ b'r' ∷ b't' ∷ [], b'8' ∷ b'1' ∷ [])
    ∷ []

port-IsItem : IsItem (b'P' ∷ b'o' ∷ b'r' ∷ b't' ∷ []) (b'8' ∷ b'0' ∷ [])
unfolding ltrim rtrim
port-IsItem = record {
  name_trimmed = record { left = refl; right = refl };
  content_trimmed = record { left = refl; right = refl };
  no_equals = omega arith;
  no_end = omega arith;
  no_zero = omega arith;
  starts = (b'P', b'o' ∷ b'r' ∷ b't' ∷ [], refl, refl);
  short = omega arith;
}

log-IsItem : IsItem (b'L' ∷ b'o' ∷ b'g' ∷ []) (b'a' ∷ 32 ∷ b'b' ∷ [])
unfolding ltrim rtrim
log-IsItem = record {
  name_trimmed = record { left = refl; right = refl };
  content_trimmed = record { left = refl; right = refl };
  no_equals = omega arith;
  no_end = omega arith;
  no_zero = omega arith;
  starts = (b'L', b'o' ∷ b'g' ∷ [], refl, refl);
  short = omega arith;
}

other_port-IsItem : IsItem (b'P' ∷ b'o' ∷ b'r' ∷ b't' ∷ []) (b'8' ∷ b'1' ∷ [])
unfolding ltrim rtrim
other_port-IsItem = record {
  name_trimmed = record { left = refl; right = refl };
  content_trimmed = record { left = refl; right = refl };
  no_equals = omega arith;
  no_end = omega arith;
  no_zero = omega arith;
  starts = (b'P', b'o' ∷ b'r' ∷ b't' ∷ [], refl, refl);
  short = omega arith;
}

items-AreItems : AreItems items
items-AreItems = (port-IsItem, (log-IsItem, (other_port-IsItem, _)))

load-write_items_example :
    (get_string (load (some (write_items items)) []).0 (b'P' ∷ b'o' ∷ b'r' ∷ b't' ∷ [])
      ≡ get_string items (b'P' ∷ b'o' ∷ b'r' ∷ b't' ∷ []))
    × ((load (some (write_items items)) []).1 ≡ true)
load-write_items_example = load-write_items items (b'P' ∷ b'o' ∷ b'r' ∷ b't' ∷ []) items-AreItems

port_is_80 :
    get_int_default
      (load (some (write_items items)) []).0
      (b'P' ∷ b'o' ∷ b'r' ∷ b't' ∷ [])
      (false, 1)
    ≡ (false, 80)
unfolding load get_int_default
port_is_80 = refl
