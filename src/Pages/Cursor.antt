-- ===== src/Pages/Cursor.antt =====
-- Cursors of pings, printed and read back.
use silence_watch.Prelude.{
  arith, decimal, decimal-all, decimal-length, decimal-value, nat_eq, some, text_keys, ℕ, ◌<◌, ◌^◌,
  ◌≡◌,
}
use silence_watch.Pages.{parse_bigint_cursor}

-- The cursor that a page of pings carries is read back as the id it was made of, for every id of at
-- most nineteen digits, as those of the database are.
pub parse_bigint_cursor-decimal :
    (id : ℕ) → id < 10 ^ 19 → parse_bigint_cursor (some (decimal id)) ≡ some id
unfolding parse_bigint_cursor
parse_bigint_cursor-decimal id h =
    ground (arith, decimal-length id 19 h (omega arith), decimal-all id, decimal-value id)
