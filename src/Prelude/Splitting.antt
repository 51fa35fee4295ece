-- ===== src/Prelude/Splitting.antt =====
-- `split` and `join` of texts at one character, and letters in lower case,
-- and `trim`.
use Prim.Native.Nat.{ℕ, ◌+◌}
use mathlib.Core.Path.{◌≡◌, refl}
use mathlib.Core.Bool.{Bool, false, true, ◌&&◌, ◌||◌}
use mathlib.Core.List.{List, [], ◌∷◌, ◌++◌}
use native.Mathlib.Omega.{arith}
use silence_watch.Prelude.Tests.{if◌then◌else◌, leb, ◌==◌}
use silence_watch.Prelude.Lists.{all, any}
use silence_watch.Prelude.Decimal.{is_decimal}
use silence_watch.Prelude.Keys.{Text}

-- `toLowerCase`, of ASCII letters.
abbrev pub lower_char : ℕ → ℕ
lower_char c = if leb b'A' c && leb c b'Z' then c + 32 else c

-- The white space of ECMAScript.
abbrev pub is_space : ℕ → Bool
is_space c =
    leb 9 c && leb c 13
    || (c == 32
        || (c == 160
            || (c == 5760
                || (leb 8192 c && leb c 8202
                    || (c == 8232
                        || (c == 8233
                            || (c == 8239 || (c == 8287 || (c == 12288 || c == 65279)))))))))

unfoldable pub trim_start : Text → Text
trim_start [] = []
trim_start (c ∷ s) = let rest = trim_start s in if is_space c then rest else c ∷ s

abbrev pub is_blank : Text → Bool
is_blank [] = true
is_blank (c ∷ s) = false

unfoldable pub trim_end : Text → Text
trim_end [] = []
trim_end (c ∷ s) = let rest = trim_end s in if is_space c && is_blank rest then [] else c ∷ rest

unfoldable pub trim_text : Text → Text
trim_text s = trim_end (trim_start s)

abbrev pub cons_head : ℕ → List Text → List Text
cons_head c [] = (c ∷ []) ∷ []
cons_head c (p ∷ ps) = (c ∷ p) ∷ ps

unfoldable pub split_on : ℕ → Text → List Text
split_on sep [] = [] ∷ []
split_on sep (c ∷ s) = let rest = split_on sep s in if c == sep then [] ∷ rest else cons_head c rest

unfoldable pub join_with : Text → List Text → Text
join_with sep [] = []
join_with sep (p ∷ []) = p
join_with sep (p ∷ q ∷ ps) = p ++ (sep ++ join_with sep (q ∷ ps))

abbrev pub contains : ℕ → Text → Bool
contains c s = any (λ d. d == c) s

-- A part that lacks the separator is cut off at it.
pub split_on-part :
    (sep : ℕ) (p s : Text)
    → contains sep p ≡ false
    → split_on sep (p ++ sep ∷ s) ≡ p ∷ split_on sep s
unfolding split_on
split_on-part sep [] s h = ground arith
split_on-part sep (c ∷ p) s h = ground (arith, split_on-part sep p s)

pub split_on-last : (sep : ℕ) (p : Text) → contains sep p ≡ false → split_on sep p ≡ p ∷ []
unfolding split_on
split_on-last sep [] h = refl
split_on-last sep (c ∷ p) h = ground (arith, split_on-last sep p)

pub contains-append :
    (c : ℕ) (s t : Text) → contains c s ≡ false → contains c t ≡ false → contains c (s ++ t) ≡ false
contains-append c [] t h e = e
contains-append c (d ∷ s) t h e = ground (arith, contains-append c s t)

pub digits-lack :
    (c : ℕ) (s : Text) → is_decimal c ≡ false → all is_decimal s ≡ true → contains c s ≡ false
digits-lack c [] h e = refl
digits-lack c (d ∷ s) h e = ground (arith, digits-lack c s)
