-- ===== src/Pages/Walk.antt =====
-- A client that follows the cursors of the pages of pings to the end.
use mathlib.Core.List.{append_assoc}
use silence_watch.Pages.Cursor.{parse_bigint_cursor-decimal}
use silence_watch.Prelude.{
  All, All-In, Bool-cases, In, In-append_right, List, Option, Text, [], ap, arith, decimal, drop,
  false, inl, inr, length, length-drop, length-take, ltb, ltb→lt, map, nat_eq, none, refl, some,
  subst, suc, sym, take, text_keys, true, zero, ℕ, ◌++◌, ◌+◌, ◌<◌, ◌^◌, ◌∙◌, ◌∷◌, ◌≡◌, ◌≤◌,
}
use silence_watch.Pages.{
  PageDto, PingDto, PingRow, cursor_at, last_of, list_pings, paginate, parse_bigint_cursor,
  to_ping_dto,
}

-- The items of a page, and of what comes behind it.
abbrev after_page : {B : Type 0} → List B → Option (List B) → Option (List B)
after_page items none = none
after_page items (some rest) = some (items ++ rest)

abbrev continued : {B : Type 0} → PageDto B → (Option Text → Option (List B)) → Option (List B)
continued page next = elim page.next_cursor [
  | none ↦ some page.items
  | some cursor ↦ after_page page.items (next (some cursor))
]

-- Reads a page after a page until one carries no cursor: all the items, or nothing if that takes
-- more than `n` pages.
unfoldable pub follow : {B : Type 0} → (Option Text → PageDto B) → ℕ → Option Text → Option (List B)
follow read zero cursor = none
follow read (suc n) cursor = continued (read cursor) (follow read n)

take-whole : {A : Type 0} (n : ℕ) (xs : List A) → length xs ≤ n → take n xs ≡ xs
take-whole zero [] h = refl
take-whole zero (x ∷ xs) h = absurd (omega arith)
take-whole (suc n) [] h = refl
take-whole (suc n) (x ∷ xs) h = ap (λ ys. x ∷ ys) (take-whole n xs (omega arith))

take-take : {A : Type 0} (n m : ℕ) (xs : List A) → n ≤ m → take n (take m xs) ≡ take n xs
take-take zero m xs h = refl
take-take (suc n) zero xs h = absurd (omega arith)
take-take (suc n) (suc m) [] h = refl
take-take (suc n) (suc m) (x ∷ xs) h = ap (λ ys. x ∷ ys) (take-take n m xs (omega arith))

map-take-drop :
    {A B : Type 0} (f : A → B) (n : ℕ) (xs : List A)
    → map f (take n xs) ++ map f (drop n xs) ≡ map f xs
map-take-drop f zero xs = refl
map-take-drop f (suc n) [] = refl
map-take-drop f (suc n) (x ∷ xs) = ap (λ ys. f x ∷ ys) (map-take-drop f n xs)

-- The row that a full page ends with, among all that are left.
take-last :
    {A : Type 0} (n : ℕ) (x : A) (xs : List A)
    → n < length xs
    → (init : List A) × (p : A) × (last_of (take (suc n) (x ∷ xs)) ≡ some p)
      × (x ∷ xs ≡ init ++ p ∷ drop n xs)
take-last zero x xs h = ([], x, refl, refl)
take-last (suc n) x [] h = absurd (omega arith)
take-last (suc n) x (y ∷ xs) h =
    let (init, p, ends, split) = take-last n y xs (omega arith) in
    (x ∷ init, p, ends, ap (λ ys. x ∷ ys) split)

take-last_of :
    {A : Type 0} (n : ℕ) (xs : List A)
    → 0 < n
    → n < length xs
    → (init : List A) × (p : A) × (last_of (take n xs) ≡ some p) × (xs ≡ init ++ p ∷ drop n xs)
take-last_of zero xs h e = absurd (omega arith)
take-last_of (suc n) [] h e = absurd (omega arith)
take-last_of (suc n) (x ∷ xs) h e = take-last n x xs (omega arith)

-- What `findMany` documents: in the order of the query, the first rows, or those behind the row of
-- the cursor, which is skipped.
abbrev pub IsListing : (Option ℕ → ℕ → List PingRow) → List PingRow → Type 0
IsListing find_many rows =
    ((n : ℕ) → find_many none n ≡ take n rows)
    × ((before : List PingRow) (p : PingRow) (after : List PingRow)
        → rows ≡ before ++ p ∷ after
        → (n : ℕ) → find_many (some p.id) n ≡ take n after)

module _ (to_iso : ℕ → Text) (find_many : Option ℕ → ℕ → List PingRow) (rows : List PingRow)
    (limit : ℕ) where
  abbrev read : Option Text → PageDto PingDto
  read = list_pings to_iso find_many limit

  -- The pages behind a cursor at which the rows of `rest` are left.
  abbrev IsAt : Option Text → List PingRow → Type 0
  IsAt cursor rest = (n : ℕ) → find_many (parse_bigint_cursor cursor) n ≡ take n rest

  read-end :
      (cursor : Option Text) (rest : List PingRow)
      → IsAt cursor rest
      → length rest ≤ limit
      → read cursor ≡ record { items = map (to_ping_dto to_iso) rest; next_cursor = none }
  unfolding list_pings paginate cursor_at
  read-end cursor rest here short =
      let whole = here (limit + 1) ∙ take-whole (limit + 1) rest (omega arith) in
      let test : ltb limit (length rest) ≡ false = ground arith in rw whole (rw test refl)

  read-more :
      (cursor : Option Text) (rest : List PingRow) (p : PingRow)
      → IsAt cursor rest
      → limit < length rest
      → last_of (take limit rest) ≡ some p
      → read cursor ≡ record {
        items = map (to_ping_dto to_iso) (take limit rest);
        next_cursor = some (decimal p.id);
      }
  unfolding list_pings paginate cursor_at
  read-more cursor rest p here long ends =
      let test : ltb limit (length (take (limit + 1) rest)) ≡ true =
        ground (arith, length-take (limit + 1) rest) in
      rw (here (limit + 1))
        (rw test (rw (take-take limit (limit + 1) rest (omega arith)) (rw ends refl)))

  abbrev IsLeft : List PingRow → Type 0
  IsLeft rest = (before : List PingRow) × (rows ≡ before ++ rest)

  -- Behind the last row of a full page.
  left-after :
      (before init rest after : List PingRow) (p : PingRow)
      → rows ≡ before ++ rest
      → rest ≡ init ++ p ∷ after
      → rows ≡ (before ++ init) ++ p ∷ after
  left-after before init rest after p e f =
      e ∙ ap (λ ys. before ++ ys) f ∙ sym (append_assoc before init (p ∷ after))

  IsAt-after :
      (before after : List PingRow) (p : PingRow)
      → IsListing find_many rows
      → All (λ (r : PingRow). r.id < 10 ^ 19) rows
      → rows ≡ before ++ p ∷ after
      → IsAt (some (decimal p.id)) after
  IsAt-after before after p listing fits e n =
      let short =
        All-In (λ (r : PingRow). r.id < 10 ^ 19) p rows fits
          (subst (In p) (sym e) (In-append_right p before (p ∷ after) (inl refl))) in
      rw (parse_bigint_cursor-decimal p.id short) (listing.1 before p after e n)

  follow_from :
      0 < limit
      → IsListing find_many rows
      → All (λ (p : PingRow). p.id < 10 ^ 19) rows
      → (n : ℕ) (cursor : Option Text) (rest : List PingRow) → IsLeft rest
      → IsAt cursor rest
      → length rest < n
      → follow read n cursor ≡ some (map (to_ping_dto to_iso) rest)
  unfolding follow
  follow_from some_rows listing fits zero cursor rest left here h = absurd (omega arith)
  follow_from some_rows listing fits (suc n) cursor rest left here h =
      elim (Bool-cases (ltb limit (length rest))) [
        | inr short ↦
            ap (λ (d : PageDto PingDto). continued d (follow read n))
              (read-end cursor rest here (ground arith))
        | inl long ↦
            let (before, e) = left in
            let (init, p, ends, f) = take-last_of limit rest some_rows (ground arith) in
            let split = left-after before init rest (drop limit rest) p e f in
            let page = read-more cursor rest p here (ground arith) ends in
            let behind =
              follow_from some_rows listing fits n (some (decimal p.id)) (drop limit rest)
                (
                  (before ++ init) ++ p ∷ [],
                  split ∙ sym (append_assoc (before ++ init) (p ∷ []) (drop limit rest)),
                )
                (IsAt-after (before ++ init) (drop limit rest) p listing fits split)
                (omega (arith, length-drop limit rest, ltb→lt limit (length rest) long)) in
            ap (λ (d : PageDto PingDto). continued d (follow read n)) page
            ∙ ap (after_page (map (to_ping_dto to_iso) (take limit rest))) behind
            ∙ ap some (map-take-drop (to_ping_dto to_iso) limit rest)
      ]

  -- Where a page has room for a row, `findMany` lists the rows of a check in its order, and every
  -- id is of at most nineteen digits, a client that follows the cursors comes to a page without one
  -- after at most as many pages as there are pings and one more, and has got every ping once, in
  -- order.
  pub follow-list_pings :
      0 < limit
      → IsListing find_many rows
      → All (λ (p : PingRow). p.id < 10 ^ 19) rows
      → follow (list_pings to_iso find_many limit) (length rows + 1) none
        ≡ some (map (to_ping_dto to_iso) rows)
  unfolding parse_bigint_cursor
  follow-list_pings some_rows listing fits =
      follow_from some_rows listing fits (length rows + 1) none rows ([], refl) (λ n. listing.0 n)
        (omega arith)
