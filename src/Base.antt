-- ===== src/Base.antt =====
-- Names that the whole library shares: those of the libraries, passed on, and of the children:
-- tests, lists, signed integers, outcomes of code that may stop, messages in a buffer,
-- bits and bytes.
mod Tests
mod Framing
mod Lists
mod Int
mod Fallible
mod Results
mod Bits
mod Bytes
pub use Tests.*
unfoldable pub use Framing.*
pub use Lists.*
pub use Int.*
unfoldable pub use Fallible.*
pub use Results.*
unfoldable pub use Bits.*
unfoldable pub use Bytes.*
pub use Prim.Native.Nat.{ℕ, zero, suc, ◌+◌, ◌-◌, ◌*◌, ◌/◌, ◌%◌, ◌^◌, ◌≤◌, ◌<◌}
pub use mathlib.Core.Path.{◌≡◌, refl, sym, ap, ◌∙◌, subst}
pub use mathlib.Core.Logic.{◌≢◌, ◌⊎◌, inl, inr}
pub use mathlib.Core.Bool.{Bool, true, false, ◌&&◌, ◌||◌, not}
pub use mathlib.Core.Option.{Option, none, some}
pub use mathlib.Core.List.{List, [], ◌∷◌, ◌++◌, map, append-nil, append_assoc, Memᴰ}
pub use native.Mathlib.Omega.{arith}
