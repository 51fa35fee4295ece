-- ===== src/Queue/Ceiling.antt =====
-- The ceiling of alerts per channel and hour.
use silence_watch.Prelude.{
  Bool-cases, In, List, Option, Text, [], ap, arith, if◌then◌else◌, inl, inr, length, length-append,
  max, nat_eq, none, some, text_keys, ℕ, ◌+◌, ◌-◌, ◌<◌, ◌==◌, ◌∙◌, ◌∷◌, ◌≡◌, ◌≤◌,
}
use silence_watch.OrderedMap.{get, get-set}
use silence_watch.Tables.{Delivery}
use silence_watch.Queue.Drain.{
  Config, Loop, Pass, at_ceiling, contexts, count_channels, drain_row, drain_rows, initial_counts,
  or_zero, refuse, sent_last_hour, settle, start_loop,
}

abbrev pub count_of : ℕ → Loop → ℕ
count_of ch l = or_zero (get ch l.counts)

module _ (cfg : Config) (pass : Pass) (ch : ℕ) where
  -- Whether a round of the loop delivered an alert of the channel, as 0 or 1.
  abbrev pub sends : Loop → Delivery → ℕ
  sends l row =
      if row.channel_id == ch
      then length (drain_row cfg pass l row).delivered - length l.delivered
      else 0

  pub sends_of_rows : Loop → List Delivery → ℕ
  sends_of_rows l [] = 0
  sends_of_rows l (row ∷ rows) = sends l row + sends_of_rows (drain_row cfg pass l row) rows

  settle-count :
      (l : Loop) (row : Delivery) (answer : Option Text)
      → let l' = settle cfg pass l row answer in
        (count_of ch l'
          ≡ count_of ch l
            + (if row.channel_id == ch then length l'.delivered - length l.delivered else 0))
        × (length l'.delivered ≤ length l.delivered + 1)
  unfolding settle
  settle-count l row none = ground (
    arith,
    get-set row.channel_id ch (or_zero (get row.channel_id l.counts) + 1) l.counts,
    length-append l.delivered (row.id ∷ []),
    λ (e : row.channel_id ≡ ch). ap (λ (c : ℕ). get c l.counts) e,
  )
  settle-count l row (some message) = ground arith

  drain_row-count :
      (l : Loop) (row : Delivery)
      → 0 < cfg.max_per_channel_per_hour
      → (count_of ch (drain_row cfg pass l row) ≡ count_of ch l + sends l row)
        × (count_of ch l + sends l row ≤ max cfg.max_per_channel_per_hour (count_of ch l))
  unfolding drain_row at_ceiling refuse
  drain_row-count l row h = elim (Bool-cases (at_ceiling cfg l row)) [
    | inl full ↦ rw full (ground arith, ground arith)
    | inr room ↦
        let (counted, one) = settle-count l row (pass.send row) in
        rw room (
          counted,
          ground (arith, λ (e : row.channel_id ≡ ch). ap (λ (c : ℕ). or_zero (get c l.counts)) e),
        )
  ]

  drain_rows-ceiling :
      (l : Loop) (rows : List Delivery)
      → 0 < cfg.max_per_channel_per_hour
      → (count_of ch (drain_rows cfg pass l rows) ≡ count_of ch l + sends_of_rows l rows)
        × (count_of ch l + sends_of_rows l rows ≤ max cfg.max_per_channel_per_hour (count_of ch l))
  unfolding drain_rows sends_of_rows
  drain_rows-ceiling l [] h = (omega arith, omega arith)
  drain_rows-ceiling l (row ∷ rows) h =
      let (counted, capped) = drain_row-count l row h in
      let (later, later_capped) = drain_rows-ceiling (drain_row cfg pass l row) rows h in
      (omega arith, omega arith)

  count_channels-get :
      (now : ℕ) (ds : List Delivery) (r : Delivery) (rows : List Delivery)
      → In r rows
      → r.channel_id ≡ ch
      → get ch (count_channels now ds rows) ≡ some (sent_last_hour now ch ds)
  unfolding count_channels
  count_channels-get now ds r [] m e = absurd m
  count_channels-get now ds r (x ∷ rows) m e =
      let law =
        get-set x.channel_id ch (sent_last_hour now x.channel_id ds) (count_channels now ds rows) in
      elim (Bool-cases (x.channel_id == ch)) [
        | inl same ↦
            let here : x.channel_id ≡ ch = ground arith in
            law ∙ rw same (ap (λ c. some (sent_last_hour now c ds)) here)
        | inr other ↦
            law
            ∙ rw other (elim m [
              | inl this ↦
                  let clash : x.channel_id ≡ ch = ap (λ (d : Delivery). d.channel_id) this ∙ e in
                  absurd (ground arith)
              | inr later ↦ count_channels-get now ds r rows later e
            ])
      ]

  -- In one pass a channel with claimed alerts is sent no more than what is left of its ceiling,
  -- counted from what it was sent in the hour before; one that is over its ceiling is sent nothing.
  pub drain-ceiling :
      (table : List Delivery) (ids : List ℕ) (r : Delivery)
      → 0 < cfg.max_per_channel_per_hour
      → In r (contexts ids table)
      → r.channel_id ≡ ch
      → sent_last_hour pass.count_at ch table
          + sends_of_rows (start_loop cfg pass table ids) (contexts ids table)
        ≤ max cfg.max_per_channel_per_hour (sent_last_hour pass.count_at ch table)
  unfolding start_loop initial_counts
  drain-ceiling table ids r h m e =
      let started = start_loop cfg pass table ids in
      let (counted, capped) = drain_rows-ceiling started (contexts ids table) h in
      let known = count_channels-get pass.count_at table r (contexts ids table) m e in
      ground (arith, known)
