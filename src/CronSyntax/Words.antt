-- ===== src/CronSyntax/Words.antt =====
-- Words of digits with one space between them, as `trim` and `split(/\s+/)` see them.
use mathlib.Core.List.{append-nil}
use silence_watch.Prelude.{
  Bool, List, Text, [], all, ap, arith, false, is_blank, is_decimal, nat_eq, not, refl, subst,
  text_keys, trim_end, trim_start, trim_text, true, ◌&&◌, ◌++◌, ◌∙◌, ◌∷◌, ◌≡◌,
}
use silence_watch.CronSyntax.{split_spaces, starts_with_at}

-- Words with one space between them.
abbrev pub spaced : List Text → Text
spaced [] = []
spaced (t ∷ []) = t
spaced (t ∷ u ∷ ts) = t ++ 32 ∷ spaced (u ∷ ts)

abbrev pub is_word : Text → Bool
is_word t = not (is_blank t) && all is_decimal t

split_spaces-part :
    (t s : Text)
    → all is_decimal t ≡ true
    → split_spaces false (t ++ 32 ∷ s) ≡ t ∷ split_spaces true s
unfolding split_spaces
split_spaces-part [] s h = refl
split_spaces-part (c ∷ t) s h = ground (arith, split_spaces-part t s)

split_spaces-last : (t : Text) → all is_decimal t ≡ true → split_spaces false t ≡ t ∷ []
unfolding split_spaces
split_spaces-last [] h = refl
split_spaces-last (c ∷ t) h = ground (arith, split_spaces-last t)

-- A run of spaces ends where a word begins.
split_spaces-run :
    (t s : Text) → is_word t ≡ true → split_spaces true (t ++ s) ≡ split_spaces false (t ++ s)
unfolding split_spaces
split_spaces-run [] s h = absurd cc
split_spaces-run (c ∷ t) s h = ground arith

pub split_spaces-spaced :
    (t : Text) (ts : List Text)
    → all is_word (t ∷ ts) ≡ true
    → split_spaces false (spaced (t ∷ ts)) ≡ t ∷ ts
split_spaces-spaced t [] h = split_spaces-last t (ground arith)
split_spaces-spaced t (u ∷ ts) h =
    split_spaces-part t (spaced (u ∷ ts)) (ground arith)
    ∙ ap (λ r. t ∷ r) (begins u ts (ground arith) ∙ split_spaces-spaced u ts (ground arith))
  where
    begins :
        (u : Text) (ts : List Text)
        → is_word u ≡ true
        → split_spaces true (spaced (u ∷ ts)) ≡ split_spaces false (spaced (u ∷ ts))
    begins u [] h =
        subst (λ r. split_spaces true r ≡ split_spaces false r) (append-nil u)
          (split_spaces-run u [] h)
    begins u (v ∷ ts) h = split_spaces-run u (32 ∷ spaced (v ∷ ts)) h

trim_end-word : (t : Text) → all is_decimal t ≡ true → trim_end t ≡ t
unfolding trim_end
trim_end-word [] h = refl
trim_end-word (c ∷ t) h = ground (arith, trim_end-word t)

blank-append : (s t : Text) → is_blank t ≡ false → is_blank (s ++ t) ≡ false
blank-append [] t e = e
blank-append (c ∷ s) t e = refl

trim_end-kept : (s t : Text) → trim_end t ≡ t → is_blank t ≡ false → trim_end (s ++ t) ≡ s ++ t
unfolding trim_end
trim_end-kept [] t h e = h
trim_end-kept (c ∷ s) t h e =
    let rest = trim_end-kept s t h e in rw rest (rw (blank-append s t e) (ground arith))

trim_end-space : (t : Text) → trim_end t ≡ t → is_blank t ≡ false → trim_end (32 ∷ t) ≡ 32 ∷ t
unfolding trim_end
trim_end-space t h e = rw h (rw e refl)

pub trim_end-spaced :
    (t : Text) (ts : List Text)
    → all is_word (t ∷ ts) ≡ true
    → (trim_end (spaced (t ∷ ts)) ≡ spaced (t ∷ ts)) × (is_blank (spaced (t ∷ ts)) ≡ false)
trim_end-spaced t [] h = (trim_end-word t (ground arith), ground arith)
trim_end-spaced t (u ∷ ts) h =
    let (e, b) = trim_end-spaced u ts (ground arith) in
    let kept = trim_end-kept t (32 ∷ spaced (u ∷ ts)) (trim_end-space (spaced (u ∷ ts)) e b) refl in
    (kept, blank-append t (32 ∷ spaced (u ∷ ts)) refl)

-- What begins with a word does not begin with a space.
trim_start-word : (t s : Text) → is_word t ≡ true → trim_start (t ++ s) ≡ t ++ s
unfolding trim_start
trim_start-word [] s h = absurd cc
trim_start-word (c ∷ t) s h = ground arith

pub starts-word : (t s : Text) → is_word t ≡ true → starts_with_at (t ++ s) ≡ false
starts-word [] s h = absurd cc
starts-word (c ∷ t) s h = ground arith

-- What is true of a word with a text behind it holds of words with spaces between them.
pub spaced-front {ℓ} :
    (P : Text → Type ℓ) (t : Text) (ts : List Text)
    → ((s : Text) → P (t ++ s))
    → P (spaced (t ∷ ts))
spaced-front P t [] h = subst P (append-nil t) (h [])
spaced-front P t (u ∷ ts) h = h (32 ∷ spaced (u ∷ ts))

pub trim_text-spaced :
    (t : Text) (ts : List Text)
    → all is_word (t ∷ ts) ≡ true
    → trim_text (spaced (t ∷ ts)) ≡ spaced (t ∷ ts)
unfolding trim_text
trim_text-spaced t ts h =
    let front =
      spaced-front (λ s. trim_start s ≡ s) t ts (λ s. trim_start-word t s (ground arith)) in
    ap trim_end front ∙ (trim_end-spaced t ts h).0
