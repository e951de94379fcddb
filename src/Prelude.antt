-- ===== src/Prelude.antt =====
-- What the components share: the library names passed on, tests on numbers and texts, lists under
-- native indices, Go maps, sorting, the worklist search and the ready-queue loop.
mod Tests
mod Lists
mod Text
pub mod Paths
pub mod Int
pub mod Sets
pub mod Sums
pub mod Maps
pub mod Sort
pub mod Tally
pub mod Worklist
pub mod Dfs
pub mod Kahn
pub mod Queues
pub mod Heap
pub use Tests.*
unfoldable pub use Lists.*
unfoldable pub use Text.{str_dec, str_le}
pub use Text.{str_le_refl, str_le_trans, str_le_total, str_le_antisymm}
pub use Prim.Native.Nat.{ℕ, zero, suc, ◌+◌, ◌-◌, ◌*◌, ◌/◌, ◌%◌, ◌^◌, ◌≤◌, ◌<◌}
pub use Prim.Native.String.{String}
pub use mathlib.Core.Path.{◌≡◌, refl, sym, ap, ap₂, subst, ◌∙◌}
pub use mathlib.Core.Logic.{◌≢◌, ◌↔◌, ◌⊎◌, inl, inr, ite, dite, if_pos, if_neg}
pub use mathlib.Core.Bool.{Bool, true, false, not, ◌&&◌, ◌||◌}
pub use mathlib.Core.Option.{Option, none, some}
pub use mathlib.Core.List.{List, [], ◌∷◌, ◌++◌, map, append-nil, append_assoc, map-append}
unfoldable pub use mathlib.Core.List.{flatten}
pub use mathlib.Core.List.{Perm}
pub use native.Mathlib.Omega.{arith}
