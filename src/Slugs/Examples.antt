-- ===== src/Slugs/Examples.antt =====
-- Names of jobs, where the runtime folds nothing.
use silence_watch.Prelude.{
  Bool, Text, arith, decimal, nat_eq, refl, text, text_eq, text_keys, ◌||◌, ◌≡◌,
}
use silence_watch.Slugs.{join_words, slugify, trim_back, trim_front, try_suffixes, unique_slug}
use silence_watch.Slugs.Laws.{IsSlug, slugify-IsSlug}

abbrev as_is : Text → Text
as_is s = s

abbrev eight : Text
eight = text "0a1b2c3d"

two_words : slugify as_is as_is eight (text "--nightly  backup!") ≡ text "nightly-backup"
unfolding slugify join_words trim_front trim_back
two_words = refl

no_words : slugify as_is as_is eight (text "(!)") ≡ eight
unfolding slugify join_words trim_front trim_back
no_words = refl

abbrev taken_twice : Text → Bool
taken_twice s = text_eq s (text "backup") || text_eq s (text "backup-2")

a_third_one :
    unique_slug as_is as_is eight (text "a1b2c3") (text "backup") taken_twice ≡ text "backup-3"
unfolding unique_slug slugify join_words trim_front trim_back try_suffixes decimal
a_third_one = refl

slugify-IsSlug_example : IsSlug (slugify as_is as_is eight (text "nightly  backup!"))
slugify-IsSlug_example =
    slugify-IsSlug as_is as_is eight (text "nightly  backup!") (refl, omega arith, omega arith)
