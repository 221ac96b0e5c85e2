-- ===== src/Flags/Tests.antt =====
-- Tests of the flags and the labels of the log.
use circle.Prelude.{◌≡◌, refl, true, false}
use circle.Flags.{
  and_bits, or_bits, or_flags, split_random, split_equal, term_tree, default_flags, has_flag,
  number, label_of, none_level, warning,
}

default_is_equal : has_flag default_flags split_equal ≡ true
unfolding has_flag and_bits
default_is_equal = refl

default_is_not_random : has_flag default_flags split_random ≡ false
unfolding has_flag and_bits
default_is_not_random = refl

joined : or_flags split_equal term_tree ≡ 10
unfolding or_bits
joined = refl

label_warning : label_of (number warning) ≡ warning
unfolding label_of number
label_warning = refl

label_none : label_of (number none_level) ≡ none_level
unfolding label_of number
label_none = refl
