-- ===== src/Postgres/Consumers/Waiting.antt =====
-- internal/storage/postgres.go: claims that are counted, and a message that does not wait.
use shoebox.Base.{
  ℕ, zero, suc, ◌+◌, ◌≤◌, ◌≡◌, ◌≢◌, refl, sym, subst, ap, ◌∙◌, Bool, true, false, not, ◌&&◌, ◌||◌,
  List, [], ◌∷◌, ◌++◌, Option, none, some, arith, inl, inr, Bool-cases, if_elim, ◌==◌, is_nil,
}
use shoebox.Base.Text.{Str, str_eq, str_eq_iff, str_eq_comm}
use shoebox.Base.Maps.{contains}
use shoebox.Storage.{Time, Message}
use shoebox.Sql.{
  Row, pending, processing, row_is, where_rows, insert_row, has_id, upsert_counters, update_rows,
  update_where,
}
use shoebox.Sql.Keys.{Answers, Keeps}
use shoebox.Sql.Single.{stands, where-other}
use shoebox.Sql.Claims.{message_ids, marked-stands}
use shoebox.Sql.Posts.{Post, Post-mono}
use shoebox.Postgres.{Database, mark_each, insert_message, insert_json, indexed, has_clash}
use shoebox.Postgres.Settle.{count_acked, count_processed}
use shoebox.Postgres.Consumers.{
  Claim, Consumers, held, nth_claim, drop_claim, claims_message, count_claims,
}

-- The message does not wait in the queue.
abbrev pub NotWaiting : Str → Str → Database → Type 0
NotWaiting id q db = stands id q pending db.rows ≡ false

module _ (id q : Str) where
  -- At most one claim has the message, and if it was delivered it waits no longer.
  abbrev pub Exclusive : Consumers → Type 0
  Exclusive s =
      (count_claims id q s.delivered + count_claims id q s.claims ≤ 1)
      × (count_claims id q s.delivered ≡ 1 → NotWaiting id q s.tables)

  contains-append :
      (k : Str) (xs ys : List Str) → contains k (xs ++ ys) ≡ (contains k xs || contains k ys)
  unfolding contains
  contains-append k [] ys = refl
  contains-append k (x ∷ xs) ys = ground (arith, contains-append k xs ys)

  pub free_count :
      (claims : List Claim) → contains id (held claims) ≡ false → count_claims id q claims ≡ 0
  unfolding held count_claims claims_message contains
  free_count [] h = refl
  free_count (c ∷ claims) h =
      let apart : (contains id (message_ids c.messages) || contains id (held claims)) ≡ false =
        sym (contains-append id (message_ids c.messages) (held claims)) ∙ h in
      ground (arith, apart, free_count claims)

  -- A claim that is taken out was counted.
  pub dropped_count :
      (n : ℕ) (claims : List Claim)
      → count_claims id q (drop_claim n claims) ≤ count_claims id q claims
  unfolding drop_claim count_claims
  dropped_count n [] = ground arith
  dropped_count zero (c ∷ claims) = ground arith
  dropped_count (suc n) (c ∷ claims) = ground (arith, dropped_count n claims)

  pub taken_count :
      (n : ℕ) (claims : List Claim) (c : Claim)
      → nth_claim n claims ≡ some c
      → count_claims id q (c ∷ drop_claim n claims) ≡ count_claims id q claims
  unfolding drop_claim count_claims nth_claim
  taken_count n [] c h = cc
  taken_count zero (d ∷ claims) c h =
      let same : d ≡ c = cc in ap (λ x. count_claims id q (x ∷ claims)) (sym same)
  taken_count (suc n) (d ∷ claims) c h = ground (arith, taken_count n claims c h)

  -- Marking rows leaves no more waiting than before, and of its own messages none.
  marking_waits :
      (other queue : Str) (rows : List (Row Time))
      → stands id q pending rows ≡ false
      → stands id q pending (
          update_rows
            (λ r. str_eq r.id other && str_eq r.queue queue)
            (λ r. record r { status = processing })
            rows)
        ≡ false
  unfolding where_rows update_rows stands
  marking_waits other queue [] h = h
  marking_waits other queue (r ∷ rows) h = ground (arith, marking_waits other queue rows)

  pub mark_each-Post :
      (queue : Str) (ms : List Message) (db : Database)
      → Post
          (λ u d.
            (NotWaiting id q db → NotWaiting id q d)
            × (str_eq queue q ≡ true → contains id (message_ids ms) ≡ true → NotWaiting id q d))
          (mark_each queue ms)
          db
  unfolding mark_each contains update_where
  mark_each-Post queue [] db = ((λ h. h), λ e h. cc)
  mark_each-Post queue (m ∷ ms) db =
      let next : Database = record db {
        rows =
            update_rows (λ r. str_eq r.id m.id && str_eq r.queue queue)
              (λ r. record r { status = processing }) db.rows;
      } in
      Post-mono _ _
        (λ u d h. (
          λ w. h.0 (marking_waits m.id queue db.rows w),
          λ e c. elim (Bool-cases (str_eq id m.id)) [
            | inl same ↦ h.0 (its_own m.id db.rows e same)
            | inr other ↦ h.1 e (ground (arith, c, other))
          ],
        ))
        (mark_each queue ms) next (mark_each-Post queue ms next)
    where
      its_own :
          (other : Str) (rows : List (Row Time))
          → str_eq queue q ≡ true
          → str_eq id other ≡ true
          → stands id q pending (
              update_rows
                (λ r. str_eq r.id other && str_eq r.queue queue)
                (λ r. record r { status = processing })
                rows)
            ≡ false
      its_own other rows e same =
          subst
            (λ t.
              stands id q pending (
                update_rows (λ r. str_eq r.id other && str_eq r.queue t)
                  (λ r. record r { status = processing }) rows)
              ≡ false)
            (sym ((str_eq_iff queue q).0 e))
            (marked-stands id other q rows ∙ ground (arith, str_eq_comm id other, same))

  appended_waits :
      (r : Row Time) (rows : List (Row Time))
      → r.id ≢ id
      → stands id q pending rows ≡ false
      → stands id q pending (rows ++ r ∷ []) ≡ false
  unfolding stands
  appended_waits r rows d h =
      let other : row_is id q pending r ≡ false = elim (Bool-cases (str_eq r.id id)) [
        | inl e ↦ absurd (d ((str_eq_iff r.id id).0 e))
        | inr e ↦ ground (arith, e)
      ] in
      rw (where-other id q pending rows r other) h

  pub deleted_waits :
      (p : Row Time → Bool) (rows : List (Row Time))
      → stands id q pending rows ≡ false
      → stands id q pending (where_rows p rows) ≡ false
  unfolding where_rows stands
  deleted_waits p [] h = h
  deleted_waits p (r ∷ rows) h =
      if_elim (λ l. not (is_nil (where_rows (row_is id q pending) l)) ≡ false) (p r)
        (r ∷ where_rows p rows) (where_rows p rows) (λ e. ground (arith, h, deleted_waits p rows))
        (λ e. deleted_waits p rows (ground (arith, h)))

  pub inserting_waits :
      (text : Option Str) (r : Row Time) (db : Database)
      → r.id ≢ id
      → NotWaiting id q db
      → Answers (NotWaiting id q) (insert_json text r db)
  unfolding insert_json insert_message insert_row
  inserting_waits none r db d h = tt
  inserting_waits (some text) r db d h =
      elim (Bool-cases (
        indexed (record r { metadata = text })
        && has_clash (record r { metadata = text }) db.rows)) [
          | inl e ↦ rw e h
          | inr e ↦ elim (Bool-cases (has_id r.id db.rows)) [
            | inl taken ↦ rw (e, taken) tt
            | inr free ↦ rw (e, free) (appended_waits _ db.rows d h)
          ]
        ]

  pub acked_Keeps : (queue : Str) (n : ℕ) → Keeps (NotWaiting id q) (count_acked queue n)
  unfolding count_acked count_processed upsert_counters
  acked_Keeps queue n =
      if_elim (Keeps (NotWaiting id q)) (n == 0) _ _ (λ e. tt) (λ e. ((λ d h. h), λ u. tt))
