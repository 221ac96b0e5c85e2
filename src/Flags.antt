-- ===== src/Flags.antt =====
-- include/lanl_circle.hpp: `RuntimeFlags`, a set of bits in an `unsigned`, with its operators, and
-- `LogLevel`; include/lanl_circle.h: the enumerations of the C interface, which src/lanl_circle.cpp
-- casts to and from those of C++.
pub mod Bits
mod Tests
use circle.Prelude.{
  ℕ, zero, suc, ◌+◌, ◌*◌, ◌/◌, ◌%◌, ◌^◌, Bool, true, false, not, ◌==◌, leb, ltb, if◌then◌else◌,
  Option, none, some,
}

-- The low `n` bits of `x & y` and of `x | y`.
unfoldable pub and_bits : ℕ → ℕ → ℕ → ℕ
and_bits zero x y = 0
and_bits (suc n) x y = x % 2 * (y % 2) + 2 * and_bits n (x / 2) (y / 2)

unfoldable pub or_bits : ℕ → ℕ → ℕ → ℕ
or_bits zero x y = 0
or_bits (suc n) x y = (if x % 2 + y % 2 == 0 then 0 else 1) + 2 * or_bits n (x / 2) (y / 2)

-- `operator&` and `operator|` on `enum class RuntimeFlags : unsigned`
abbrev pub and_flags : ℕ → ℕ → ℕ
and_flags x y = and_bits 32 x y

abbrev pub or_flags : ℕ → ℕ → ℕ
or_flags x y = or_bits 32 x y

-- `RuntimeFlags`
abbrev pub no_flags : ℕ
no_flags = 0

abbrev pub split_random : ℕ
split_random = 2 ^ 0

abbrev pub split_equal : ℕ
split_equal = 2 ^ 1

abbrev pub create_global : ℕ
create_global = 2 ^ 2

abbrev pub term_tree : ℕ
term_tree = 2 ^ 3

abbrev pub default_flags : ℕ
default_flags = split_equal

-- `(flags & flag) != RuntimeFlags::None`
unfoldable pub has_flag : ℕ → ℕ → Bool
has_flag flags flag = not (and_flags flags flag == no_flags)

-- `enum class LogLevel : unsigned`
pub data LogLevel : Type 0 where
  none_level fatal error warning info debug : LogLevel

unfoldable pub number : LogLevel → ℕ
number none_level = 0
number fatal = 1
number error = 2
number warning = 3
number info = 4
number debug = 5

-- The tests of `Circle::log` for the label, in their order.
unfoldable pub label_of : ℕ → LogLevel
unfolding number
label_of n =
    if n == number fatal
    then fatal
    else if n == number error
    then error
    else if n == number warning
    then warning
    else if n == number info
    then info
    else if n == number debug
    then debug
    else none_level

-- `enum CircleLogLevel` and `enum CircleRuntimeFlags`
pub data CircleLogLevel : Type 0 where
  circle_none circle_fatal circle_error circle_warning circle_info circle_debug : CircleLogLevel

unfoldable pub c_number : CircleLogLevel → ℕ
c_number circle_none = 0
c_number circle_fatal = 1
c_number circle_error = 2
c_number circle_warning = 3
c_number circle_info = 4
c_number circle_debug = 5

pub data CircleRuntimeFlags : Type 0 where
  circle_split_random circle_split_equal circle_create_global circle_term_tree : CircleRuntimeFlags

unfoldable pub c_flag : CircleRuntimeFlags → ℕ
c_flag circle_split_random = 2 ^ 0
c_flag circle_split_equal = 2 ^ 1
c_flag circle_create_global = 2 ^ 2
c_flag circle_term_tree = 2 ^ 3
