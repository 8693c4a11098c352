-- ===== src/Postgres/Unique.antt =====
-- internal/storage/postgres.go: the index idx_shoebox_durable_dedupe, after any calls.
use shoebox.Base.{
  ◌≡◌, refl, subst, ap, ◌∙◌, Bool, true, false, not, ◌&&◌, ◌||◌, List, [], ◌∷◌, ◌++◌, inl, inr,
  Bool-cases, arith, is_nil, if◌then◌else◌, if_elim,
}
use shoebox.Base.Text.{str_eq, str_eq_comm}
use shoebox.Storage.{Time, ok, err}
use shoebox.Sql.{
  Row, dead, status_eq, where_rows, update_rows, update_where, delete_where, insert_row, has_id,
  key_taken,
}
use shoebox.Sql.Keys.{
  Answers, DistinctIds, insert_row-DistinctIds, update_where-DistinctIds, delete_where-DistinctIds,
}
use shoebox.Postgres.{Database, insert_message, indexed, clashes, has_clash}
use shoebox.Postgres.Calls.Keeping.{Calm}

-- No two rows of the index have the same queue and key.
unfoldable pub Unclashed : List (Row Time) → Type 0
Unclashed [] = Unit
Unclashed (r ∷ rows) = (indexed r ≡ true → has_clash r rows ≡ false) × Unclashed rows

-- No two messages that wait or are in flight have the same queue and the same non-empty key, and no two
-- messages have the same identifier.
abbrev pub UniqueKeys : Database → Type 0
UniqueKeys db = DistinctIds db × Unclashed db.rows

pub where-clash :
    (p : Row Time → Bool) (r : Row Time) (rows : List (Row Time))
    → has_clash r rows ≡ false
    → has_clash r (where_rows p rows) ≡ false
unfolding where_rows has_clash
where-clash p r [] h = h
where-clash p r (s ∷ rows) h = ground (arith, where-clash p r rows)

where-Unclashed :
    (p : Row Time → Bool) (rows : List (Row Time)) → Unclashed rows → Unclashed (where_rows p rows)
unfolding where_rows Unclashed
where-Unclashed p [] u = tt
where-Unclashed p (r ∷ rows) u =
    if_elim Unclashed (p r) (r ∷ where_rows p rows) (where_rows p rows)
      (λ e. ((λ i. where-clash p r rows (u.0 i)), where-Unclashed p rows u.1))
      (λ e. where-Unclashed p rows u.1)

pub delete_where-UniqueKeys :
    (p : Row Time → Bool) (db : Database) → UniqueKeys db → Answers UniqueKeys (delete_where p db)
unfolding delete_where
delete_where-UniqueKeys p db (d, u) =
    (delete_where-DistinctIds p db d, where-Unclashed (λ r. not (p r)) db.rows u)

clash_free :
    (r s : Row Time) → indexed s ≡ true → (indexed r && clashes r s) ≡ false → clashes s r ≡ false
unfolding clashes
clash_free r s i h =
    ground (arith, h, i, str_eq_comm r.queue s.queue, str_eq_comm r.dedupe_key s.dedupe_key)

append-clash :
    (r s : Row Time) (rows : List (Row Time))
    → has_clash r (rows ++ s ∷ []) ≡ (has_clash r rows || clashes r s)
unfolding has_clash
append-clash r s [] = ground arith
append-clash r s (x ∷ rows) = ground (arith, append-clash r s rows)

append-Unclashed :
    (r : Row Time) (rows : List (Row Time))
    → (indexed r && has_clash r rows) ≡ false
    → Unclashed rows
    → Unclashed (rows ++ r ∷ [])
unfolding Unclashed has_clash
append-Unclashed r [] h u = ((λ i. refl), tt)
append-Unclashed r (s ∷ rows) h u = (
  λ i. append-clash s r rows ∙ ground (arith, u.0 i, clash_free r s i (ground (arith, h))),
  append-Unclashed r rows (ground (arith, h)) u.1,
)

pub insert_message-UniqueKeys :
    (r : Row Time) (db : Database) → UniqueKeys db → Answers UniqueKeys (insert_message r db)
unfolding insert_message insert_row
insert_message-UniqueKeys r db (d, u) = elim (Bool-cases (indexed r && has_clash r db.rows)) [
  | inl e ↦ rw e (d, u)
  | inr e ↦ elim (Bool-cases (has_id r.id db.rows)) [
    | inl taken ↦ rw (e, taken) tt
    | inr free ↦ rw (e, free) (inserted free, append-Unclashed r db.rows e u)
  ]
]
  where
    inserted : has_id r.id db.rows ≡ false → DistinctIds (record db { rows = db.rows ++ r ∷ [] })
    inserted free =
        subst
          (λ t.
            Answers DistinctIds
              (if t then err key_taken else ok (tt, record db { rows = db.rows ++ r ∷ [] })))
          free (insert_row-DistinctIds r db d)

-- An update that revives none of the rows that it touches.
abbrev pub Quiet : (Row Time → Bool) → (Row Time → Row Time) → List (Row Time) → Type 0
Quiet p f [] = Unit
Quiet p f (r ∷ rows) =
    (p r ≡ true → status_eq r.status dead ≡ true → status_eq (f r).status dead ≡ true)
    × Quiet p f rows

-- The row stands where the other does in the index, if it does.
abbrev Beside : Row Time → Row Time → Type 0
Beside r s =
    (s.queue ≡ r.queue)
    × (s.dedupe_key ≡ r.dedupe_key)
    × (status_eq r.status dead ≡ true → status_eq s.status dead ≡ true)

Beside-refl : (r : Row Time) → Beside r r
Beside-refl r = (refl, refl, λ d. d)

Beside-indexed : (r s : Row Time) → Beside r s → indexed s ≡ true → indexed r ≡ true
unfolding indexed
Beside-indexed r s (q, k, d) i = ground (arith, ap is_nil k, i, d)

Beside-clash :
    (r r' s s' : Row Time) → Beside r r' → Beside s s' → clashes r s ≡ false → clashes r' s' ≡ false
unfolding clashes
Beside-clash r r' s s' b c h = ground (
  arith,
  h,
  Beside-indexed s s' c,
  ap (λ t. str_eq t r'.queue) c.0,
  ap (λ t. str_eq s.queue t) b.0,
  ap (λ t. str_eq t r'.dedupe_key) c.1,
  ap (λ t. str_eq s.dedupe_key t) b.1,
)

update-clash :
    (p : Row Time → Bool) (f : Row Time → Row Time) (r r' : Row Time) (rows : List (Row Time))
    → ((s : Row Time) → (f s).queue ≡ s.queue)
    → ((s : Row Time) → (f s).dedupe_key ≡ s.dedupe_key)
    → Quiet p f rows
    → Beside r r'
    → has_clash r rows ≡ false
    → has_clash r' (update_rows p f rows) ≡ false
unfolding has_clash update_rows
update-clash p f r r' [] q k quiet b h = refl
update-clash p f r r' (s ∷ rows) q k quiet b h =
    let rest = update-clash p f r r' rows q k quiet.1 b (ground (arith, h)) in
    if_elim (λ l. has_clash r' l ≡ false) (p s) (f s ∷ update_rows p f rows)
      (s ∷ update_rows p f rows)
      (λ e.
        let apart : clashes r' (f s) ≡ false =
          Beside-clash r r' s (f s) b (q s, k s, quiet.0 e) (ground (arith, h)) in
        ground (arith, apart, rest))
      (λ e.
        let apart : clashes r' s ≡ false =
          Beside-clash r r' s s b (Beside-refl s) (ground (arith, h)) in
        ground (arith, apart, rest))

update-Unclashed :
    (p : Row Time → Bool) (f : Row Time → Row Time) (rows : List (Row Time))
    → ((s : Row Time) → (f s).queue ≡ s.queue)
    → ((s : Row Time) → (f s).dedupe_key ≡ s.dedupe_key)
    → Quiet p f rows
    → Unclashed rows
    → Unclashed (update_rows p f rows)
unfolding Unclashed update_rows
update-Unclashed p f [] q k quiet u = tt
update-Unclashed p f (r ∷ rows) q k quiet u =
    let rest = update-Unclashed p f rows q k quiet.1 u.1 in
    if_elim Unclashed (p r) (f r ∷ update_rows p f rows) (r ∷ update_rows p f rows)
      (λ e.
        let b : Beside r (f r) = (q r, k r, quiet.0 e) in
        (λ i. update-clash p f r (f r) rows q k quiet.1 b (u.0 (Beside-indexed r (f r) b i)), rest))
      (λ e. ((λ i. update-clash p f r r rows q k quiet.1 (Beside-refl r) (u.0 i)), rest))

pub quiet_update-UniqueKeys :
    (p : Row Time → Bool) (f : Row Time → Row Time) (db : Database)
    → ((s : Row Time) → (f s).id ≡ s.id)
    → ((s : Row Time) → (f s).queue ≡ s.queue)
    → ((s : Row Time) → (f s).dedupe_key ≡ s.dedupe_key)
    → Quiet p f db.rows
    → UniqueKeys db
    → Answers UniqueKeys (update_where p f db)
unfolding update_where
quiet_update-UniqueKeys p f db i q k quiet (d, u) =
    (update_where-DistinctIds p f i db d, update-Unclashed p f db.rows q k quiet u)

Calm-Quiet :
    (p : Row Time → Bool) (f : Row Time → Row Time)
    → Calm p f
    → (rows : List (Row Time)) → Quiet p f rows
Calm-Quiet p f c [] = tt
Calm-Quiet p f c (r ∷ rows) = (c.no_revival r, Calm-Quiet p f c rows)

pub update_where-UniqueKeys :
    (p : Row Time → Bool) (f : Row Time → Row Time)
    → Calm p f
    → (db : Database) → UniqueKeys db
    → Answers UniqueKeys (update_where p f db)
update_where-UniqueKeys p f c db u =
    quiet_update-UniqueKeys p f db c.same_id c.same_queue c.same_key (Calm-Quiet p f c db.rows) u
