-- ===== src/Base.antt =====
-- The names that the whole development shares: the libraries', passed on, and those of the children
-- (tests, lists, integers, JavaScript's Map, the result type).
mod Tests
mod Lists
mod Int
mod Results
mod Maps
mod Decimal
pub mod Texts
pub mod Json
pub use Tests.*
pub use Lists.*
unfoldable pub use Int.{◌+ℤ◌, neg_ℤ}
pub use Int.{
  ℤ, pos, negsuc, pos_part, neg_part, sub_ℕ, ◌≤ℤ◌, ◌<ℤ◌, ltb_ℤ, leb_ℤ, eq_ℤ, +ℤ_parts, neg_ℤ_parts,
  eq_of_parts, int_laws, eq_ℤ→eq, eq_ℤ_self, leb_ℤ→le, +ℤ_assoc, +ℤ_comm, zero-+ℤ, +ℤ-zero,
  +ℤ-neg_cancel, neg_ℤ-eq_zero,
}
pub use Results.{Result, ok, err, Result-cases, ok-injective}
pub use Maps.*
unfoldable pub use Decimal.{
  nat_to_string, to_string, is_digit, all_digits, is_numeral, read_from, read_nat,
}
pub use Decimal.{
  read_nat-nat_to_string, is_numeral-nat_to_string, NonZeroHead, nat_to_string-zero_or_NonZeroHead,
}
pub use Prim.Native.Nat.{ℕ, zero, suc, ◌+◌, ◌-◌, ◌*◌, ◌/◌, ◌%◌, ◌^◌, ◌≤◌, ◌<◌}
pub use Prim.Native.String.{String}
pub use mathlib.Core.Path.{◌≡◌, refl, sym, ap, ◌∙◌, fun_ext, subst}
pub use mathlib.Core.Logic.{◌≢◌, ◌↔◌, ◌⊎◌, inl, inr}
pub use mathlib.Core.Bool.{Bool, true, false, not, ◌&&◌, ◌||◌}
pub use mathlib.Core.Option.{Option, none, some}
pub use mathlib.Core.List.{List, [], ◌∷◌, ◌++◌, map}
pub use native.Mathlib.Omega.{arith}
pub use text.Mathlib.Text.{◌==◌}
pub use text.Mathlib.TextEquality.{eq_iff}
