-- ===== src/Bencode/Assert.antt =====
-- The type assertions `v.(T)` on decoded values.
use bittorrent_client_go.Base.{ℤ, Option, none, some, [], Bytes}
use bittorrent_client_go.Bencode.{Value, str, int, list, dict, Items, Fields}

-- Each is on the value of a key, with `none` for a missing one and for another type.
abbrev pub string_of : Option Value → Option Bytes
string_of (some (str s)) = some s
string_of _ = none

abbrev pub int_of : Option Value → Option ℤ
int_of (some (int i)) = some i
int_of _ = none

abbrev pub list_of : Option Value → Option Items
list_of (some (list l)) = some l
list_of _ = none

abbrev pub dict_of : Option Value → Option Fields
dict_of (some (dict m)) = some m
dict_of _ = none

-- `s, _ := v.(string)`
abbrev pub name_or_empty : Option Bytes → Bytes
name_or_empty none = []
name_or_empty (some s) = s
