-- ===== src/CronSyntax/Examples.antt =====
-- Runs of the validation of cron expressions.
use silence_watch.Prelude.{
  Text, [], all, ap, arith, decimal, false, is_decimal, lower_char, map, nat_eq, refl, split_on,
  text, text_keys, trim_end, trim_start, trim_text, true, ◌∷◌, ◌≡◌,
}
use silence_watch.CronSyntax.{
  are_valid_fields, before_last, before_nth, index_of, is_range, is_stepped,
  is_valid_cron_expression, is_valid_entry, is_valid_field, parse_value, split_spaces,
}
use silence_watch.CronSyntax.Words.{spaced}
use silence_watch.CronSyntax.Numbers.{valid_expression-numbers}

abbrev to_lower : Text → Text
to_lower s = map lower_char s

to_lower-digits : (t : Text) → all is_decimal t ≡ true → to_lower t ≡ t
to_lower-digits [] h = refl
to_lower-digits (c ∷ t) h = rw (to_lower-digits t (ground arith)) (ap (λ d. d ∷ t) (ground arith))

test_steps : is_valid_cron_expression to_lower (text " */15 9-17 * * MON-FRI ") ≡ true
unfolding is_valid_cron_expression trim_text trim_end trim_start split_spaces are_valid_fields
    is_valid_field is_valid_entry split_on is_stepped is_range parse_value index_of before_last
    before_nth
test_steps = refl

test_last : is_valid_cron_expression to_lower (text "0 0 0 L * 5#3,friL") ≡ true
unfolding is_valid_cron_expression trim_text trim_end trim_start split_spaces are_valid_fields
    is_valid_field is_valid_entry split_on is_stepped is_range parse_value index_of before_last
    before_nth
test_last = refl

test_nearest : is_valid_cron_expression to_lower (text "0 0 15W * *") ≡ false
unfolding is_valid_cron_expression trim_text trim_end trim_start split_spaces are_valid_fields
    is_valid_field is_valid_entry split_on is_stepped is_range parse_value index_of before_last
    before_nth
test_nearest = refl

valid_expression-numbers_example :
    is_valid_cron_expression to_lower (spaced (map decimal (30 ∷ 4 ∷ 1 ∷ 12 ∷ 7 ∷ []))) ≡ true
valid_expression-numbers_example =
    valid_expression-numbers to_lower to_lower-digits (30 ∷ 4 ∷ 1 ∷ 12 ∷ 7 ∷ []) refl
