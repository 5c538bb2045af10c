-- ===== src/Base.antt =====
-- The names that the other modules share: the libraries', passed on, and those of the children.
mod Tests
mod Lists
mod Int
mod Text
mod Map
mod Words
mod Buffers
mod Hex
pub mod Sorter
mod Outcome
unfoldable pub use Tests.*
pub use Lists.*
pub use Int.{ℤ, pos, negsuc, int_bound, FitsInt}
unfoldable pub use Int.{negate}
pub use Text.{Bytes, codes, bytes_eq_refl, eq_of_bytes_eq, bytes_eq_iff, is_digit}
unfoldable pub use Text.{bytes_eq, bytes_gt}
unfoldable pub use Map.{lookup, insert, delete, lookup_at, insert_at, delete_at}
pub use Map.{lookup-insert, lookup-delete, lookup_at-insert_at, lookup_at-delete_at}
unfoldable pub use Hex.{hex_encode, hex_decode, to_lower, to_upper}
pub use Hex.{hex_digit, lower_byte, hex_decode-hex_encode, length-hex_encode}
unfoldable pub use Buffers.{copy_at}
pub use Buffers.{length-copy_at, get_elem?-copy_at, get_elem?-take, get_elem?-drop, eq_of_elems}
pub use Words.{u32_mod, put_u32, u32_of, u16_of, u32_of-put_u32}
pub use Outcome.{Result, ok, err, panic, ◌>>=◌, bind-eq-ok, Post, bind-Post, if-Post}
pub use Prim.Native.Nat.{ℕ, zero, suc, ◌+◌, ◌-◌, ◌*◌, ◌/◌, ◌%◌, ◌^◌, ◌≤◌, ◌<◌, min}
pub use mathlib.Core.Path.{◌≡◌, refl, sym, ap, ◌∙◌}
pub use mathlib.Core.Logic.{◌≢◌, ◌↔◌, ◌⊎◌, inl, inr}
pub use mathlib.Core.Bool.{Bool, true, false, not, ◌&&◌, ◌||◌}
pub use mathlib.Core.Option.{Option, none, some}
pub use mathlib.Core.List.{List, [], ◌∷◌, ◌++◌, map, append_assoc, append-nil}
pub use native.Mathlib.Omega.{arith}
