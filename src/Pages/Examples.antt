-- ===== src/Pages/Examples.antt =====
-- Two pings behind a page of one, and a cursor.
use silence_watch.Tables.{success}
use silence_watch.Prelude.{
  List, Option, [], ap, arith, decimal, if◌then◌else◌, length, map, nat_eq, none, refl, some, suc,
  sym, take, text, text_keys, ℕ, ◌++◌, ◌==◌, ◌∷◌, ◌≡◌,
}
use silence_watch.Pages.{
  PingRow, list_pings, matches_uuid, parse_bigint_cursor, parse_uuid_cursor, to_ping_dto,
}
use silence_watch.Pages.Walk.{IsListing, follow, follow-list_pings}

not_a_number : parse_bigint_cursor (some (text "4 2")) ≡ none
unfolding parse_bigint_cursor
not_a_number = refl

twenty_digits : parse_bigint_cursor (some (text "12345678901234567890")) ≡ none
unfolding parse_bigint_cursor
twenty_digits = refl

an_incident_id :
    parse_uuid_cursor (some (text "0b9f1c3e-4c1a-4f6e-9d2a-7b8c9d0e1f2a"))
    ≡ some (text "0b9f1c3e-4c1a-4f6e-9d2a-7b8c9d0e1f2a")
unfolding parse_uuid_cursor matches_uuid
an_incident_id = refl

an_id_and_more : parse_uuid_cursor (some (text "0b9f1c3e-4c1a-4f6e-9d2a-7b8c9d0e1f2a-x")) ≡ none
unfolding parse_uuid_cursor matches_uuid
an_id_and_more = refl

abbrev ping_at : ℕ → ℕ → PingRow
ping_at id t = record {
  id = id;
  ping = record {
    check_id = 1;
    received_at = t;
    kind = success;
    exit_code = none;
    duration_ms = none;
    body = none;
    source_ip = none;
    user_agent = none;
  };
}

abbrev two_pings : List PingRow
two_pings = ping_at 12 2000 ∷ ping_at 7 1000 ∷ []

abbrev behind : ℕ → List PingRow → List PingRow
behind id [] = []
behind id (p ∷ ps) = if p.id == id then ps else behind id ps

abbrev query : Option ℕ → ℕ → List PingRow
query none n = take n two_pings
query (some id) n = take n (behind id two_pings)

tail_of : List PingRow → List PingRow
tail_of [] = []
tail_of (p ∷ ps) = ps

head_id : List PingRow → ℕ
head_id [] = 0
head_id (p ∷ ps) = p.id

behind-two :
    (before : List PingRow) (p : PingRow) (after : List PingRow)
    → two_pings ≡ before ++ p ∷ after
    → behind p.id two_pings ≡ after
unfolding tail_of head_id
behind-two [] p after e = let i : p.id ≡ 12 = sym (ap head_id e) in rw i (ap tail_of e)
behind-two (x ∷ []) p after e =
    let i : p.id ≡ 7 = sym (ap (λ ys. head_id (tail_of ys)) e) in
    rw i (ap (λ ys. tail_of (tail_of ys)) e)
behind-two (x ∷ y ∷ []) p after e =
    let i : 2 ≡ suc (suc (suc (length after))) = ap length e in absurd (omega (arith, i))
behind-two (x ∷ y ∷ z ∷ zs) p after e =
    let i : 2 ≡ suc (suc (suc (length (zs ++ p ∷ after)))) = ap length e in
    absurd (omega (arith, i))

query-IsListing : IsListing query two_pings
query-IsListing = ((λ n. refl), λ before p after e n. ap (take n) (behind-two before p after e))

follow-list_pings_example :
    follow (list_pings decimal query 1) 3 none ≡ some (map (to_ping_dto decimal) two_pings)
follow-list_pings_example =
    follow-list_pings decimal query two_pings 1 (omega arith) query-IsListing
      (omega arith, (omega arith, tt))
