-- ===== src/Text.antt =====
-- Go strings as lists of bytes, and the functions of Go's `strings` package that the program calls.
mod Strings
pub mod Decimal
pub mod DecimalRoundTrip
pub mod Scan
pub use Strings.{
  Bytes, codes, All, All-append, All-map, Lacks, str_eq_iff, str_eq_refl, str_less_irrefl,
  str_less_trans, str_less_total, split_pair, split-All-Lacks,
}
unfoldable pub use Strings.{str_eq, str_less, to_lower, to_upper, split}
