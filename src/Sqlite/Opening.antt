-- ===== src/Sqlite/Opening.antt =====
-- internal/storage/sqlite.go: NewSQLite on a database file that is there. The schema is brought up to
-- date, then the messages that a crash left processing are reclaimed, in all queues.
use shoebox.Base.{
  ℕ, ◌≡◌, ◌<◌, refl, ap, subst, sym, Bool, false, ◌||◌, List, [], ◌∷◌, none, some, arith,
}
use shoebox.Base.Text.{Str}
use shoebox.Migrations.{Migration, last_version}
use shoebox.Migrations.Running.{Schema, Scripts, Ending, returns, waits, init_schema}
use shoebox.Migrations.Resuming.{Ascending}
use shoebox.Migrations.Reopening.{up_to_date}
use shoebox.Sql.{Row, pending, processing, dead, status_eq, update_rows, where_rows, has_id}
use shoebox.Sql.Single.{stands}
use shoebox.Sql.Posts.{update-Holds}
use shoebox.Sqlite.{Database}

-- `UPDATE shoebox_messages SET status = 'pending' WHERE status = 'processing'`.
unfoldable pub reclaim_all : Database → Database
reclaim_all db = record db {
  rows =
      update_rows (λ r. status_eq r.status processing) (λ r. record r { status = pending }) db.rows;
}

unfoldable pub new_sqlite :
    Scripts Database → List Migration → List Bool → Schema Database → Schema Database × Ending
unfolding reclaim_all
new_sqlite c ups faults d =
    let x = init_schema c ups faults d in
    elim x.1 [
      | waits ↦ (x.0, waits)
      | returns e ↦ elim e [
        | some y ↦ (x.0, returns (some y))
        | none ↦ (record x.0 { tables = reclaim_all x.0.tables }, returns none)
      ]
    ]

reclaim_all_lem :
    (db : Database) (id queue : Str)
    → (stands id queue processing (reclaim_all db).rows ≡ false)
      × (stands id queue pending (reclaim_all db).rows
          ≡ (stands id queue pending db.rows || stands id queue processing db.rows))
      × (stands id queue dead (reclaim_all db).rows ≡ stands id queue dead db.rows)
unfolding reclaim_all update_rows stands where_rows
reclaim_all_lem db id queue = go db.rows
  where
    after : List (Row Str) → List (Row Str)
    after = update_rows (λ r. status_eq r.status processing) (λ r. record r { status = pending })

    go :
        (rows : List (Row Str))
        → (stands id queue processing (after rows) ≡ false)
          × (stands id queue pending (after rows)
              ≡ (stands id queue pending rows || stands id queue processing rows))
          × (stands id queue dead (after rows) ≡ stands id queue dead rows)
    go [] = (refl, refl, refl)
    go (r ∷ rows) =
        let (p, w, d) = go rows in (ground (arith, p), ground (arith, w), ground (arith, d))

-- The answer of an opening, beside the tables before it: there is no error, only the messages have
-- changed, none is processing, those that were wait, the others stay as they are, and so do the
-- identifiers.
abbrev pub Reclaimed : Str → Str → Database → Schema Database × Ending → Type 0
Reclaimed id queue db (d, e) =
    (e ≡ returns none)
    × (d.tables ≡ record db { rows = d.tables.rows })
    × (stands id queue processing d.tables.rows ≡ false)
    × (stands id queue pending d.tables.rows
        ≡ (stands id queue pending db.rows || stands id queue processing db.rows))
    × (stands id queue dead d.tables.rows ≡ stands id queue dead db.rows)
    × (has_id id d.tables.rows ≡ has_id id db.rows)

opened :
    (c : Scripts Database) (ups : List Migration) (d : Schema Database)
    → init_schema c ups [] d ≡ (d, returns none)
    → new_sqlite c ups [] d ≡ (record d { tables = reclaim_all d.tables }, returns none)
unfolding new_sqlite
opened c ups d e = ap finish e
  where
    finish : Schema Database × Ending → Schema Database × Ending
    finish x = elim x.1 [
      | waits ↦ (x.0, waits)
      | returns e ↦ elim e [
        | some y ↦ (x.0, returns (some y))
        | none ↦ (record x.0 { tables = reclaim_all x.0.tables }, returns none)
      ]
    ]

-- Opening a database of the latest version succeeds and changes no table but that of the messages. There
-- no message is left processing: those that were wait again under their queue and identifier, those that
-- waited or were dead stay so, and no identifier is lost or made up.
pub new_sqlite-Reclaimed :
    (c : Scripts Database) (ups : List Migration) (d : Schema Database) (latest : ℕ)
    (id queue : Str)
    → Ascending 0 ups
    → last_version ups ≡ some latest
    → 0 < latest
    → d.version ≡ latest
    → Reclaimed id queue d.tables (new_sqlite c ups [] d)
unfolding reclaim_all
new_sqlite-Reclaimed c ups d latest id queue a e l v =
    let (p, w, q) = reclaim_all_lem d.tables id queue in
    subst (Reclaimed id queue d.tables) (sym (opened c ups d (up_to_date c ups d latest a e l v))) (
      refl,
      refl,
      p,
      w,
      q,
      update-Holds id (λ r. status_eq r.status processing) _ (λ r. refl) d.tables.rows,
    )
