-- ===== src/Postgres/Consumers/Exclusive.antt =====
-- internal/storage/postgres.go: a message is claimed by one consumer at most.
use mathlib.Core.List.{Mem}
use shoebox.Base.{
  ℕ, ◌+◌, ◌≤◌, ◌≡◌, ◌≢◌, refl, sym, subst, ◌∙◌, Bool, true, false, List, [], ◌∷◌, none, some, arith,
  inl, inr, Bool-cases, All,
}
use shoebox.Base.Text.{Str, str_eq_iff}
use shoebox.Base.Maps.Sets.{contains-Mem}
use shoebox.Storage.{Time, Message, Result, ok, err}
use shoebox.Sql.{pending, delete_where}
use shoebox.Sql.Keys.{ids, autocommit-Keeps, transact-Keeps}
use shoebox.Sql.Single.{stands}
use shoebox.Sql.Claims.{message_ids}
use shoebox.Sql.Posts.{After, Post-mono, Post-bind, Returned, all_or_nothing-Returned}
use shoebox.Postgres.{Engine, Database, due_messages, mark_each, choose, enqueue, message_row}
use shoebox.Postgres.Settle.{ack}
use shoebox.Postgres.Claiming.{Arranges, choose-stands, due_messages-After}
use shoebox.Postgres.Consumers.{
  Claim, Consumers, Move, begin_claim, commit_claim, abort_claim, arrive, settle, held, nth_claim,
  drop_claim, opened, marked, committed, move, moves, claims_message, count_claims,
}
use shoebox.Postgres.Consumers.Waiting.{
  NotWaiting, Exclusive, free_count, dropped_count, taken_count, mark_each-Post, inserting_waits,
  deleted_waits, acked_Keeps,
}

-- The message does not arrive again.
abbrev pub Spares : Str → Move → Type 0
Spares id (arrive faults queue msg now) = msg.id ≢ id
Spares id _ = Unit

start :
    (id q : Str) (db : Database)
    → Exclusive id q (record { tables = db; claims = []; delivered = [] })
unfolding count_claims
start id q db = (ground arith, λ e. cc)

module _ (g : Engine) (id q : Str) where
  arrive-NotWaiting :
      (faults : List Bool) (db : Database) (queue : Str) (msg : Message) (now : Time)
      → msg.id ≢ id
      → NotWaiting id q db
      → NotWaiting id q (enqueue g faults db queue msg now).0
  unfolding enqueue message_row
  arrive-NotWaiting faults db queue msg now d h =
      autocommit-Keeps (NotWaiting id q) _ faults db
        ((λ e w. inserting_waits id q _ (message_row g queue msg now) e d w), λ n. tt) h

  settle-NotWaiting :
      (faults : List Bool) (db : Database) (queue other : Str)
      → NotWaiting id q db
      → NotWaiting id q (ack faults db queue other).0
  unfolding ack delete_where
  settle-NotWaiting faults db queue other h =
      transact-Keeps (NotWaiting id q) _ faults db
        ((λ d w. deleted_waits id q _ d.rows w), λ n. acked_Keeps id q queue n) h

  marked-Returned :
      (c : Claim) (faults : List Bool) (db : Database)
      → Returned
          (λ u d.
            (NotWaiting id q db → NotWaiting id q d)
            × (claims_message id q c ≡ true → NotWaiting id q d))
          (marked c faults db)
  unfolding marked claims_message
  marked-Returned c faults db = all_or_nothing-Returned after _ faults db (
      Post-bind after (mark_each c.queue c.messages) _ db (
        Post-mono _ _ (λ u d h. (h.0, λ k. h.1 (ground (arith, k)) (ground (arith, k))))
          (mark_each c.queue c.messages) db (mark_each-Post id q c.queue c.messages db)))
    where
      after : Unit {0} → Database → Type 0
      after u d =
          (NotWaiting id q db → NotWaiting id q d)
          × (claims_message id q c ≡ true → NotWaiting id q d)

  committed-Exclusive :
      (s : Consumers) (c : Claim) (x : Database × Result (Unit {0}))
      → Returned
          (λ u d.
            (NotWaiting id q s.tables → NotWaiting id q d)
            × (claims_message id q c ≡ true → NotWaiting id q d))
          x
      → count_claims id q s.delivered + count_claims id q (c ∷ s.claims) ≤ 1
      → (count_claims id q s.delivered ≡ 1 → NotWaiting id q s.tables)
      → Exclusive id q (committed s c x)
  unfolding committed count_claims
  committed-Exclusive s c (db, err e) r l w = (ground (arith, l), w)
  committed-Exclusive s c (db, ok u) r l w = (
    ground (arith, l),
    λ one. elim (Bool-cases (claims_message id q c)) [
      | inl e ↦ r.1 e
      | inr e ↦ r.0 (w (ground (arith, one, e)))
    ],
  )

  module _ (law : Arranges g) where
    -- A message that is locked was neither locked nor delivered before.
    fresh_claim :
        (s : Consumers) (queue : Str) (limit : ℕ) (clock : Time) (ms : List Message)
        → message_ids ms ≡ ids (choose g queue clock limit (held s.claims) s.tables)
        → Exclusive id q s
        → claims_message id q (record { queue = queue; messages = ms }) ≡ true
        → count_claims id q s.delivered + count_claims id q s.claims ≡ 0
    unfolding claims_message
    fresh_claim s queue limit clock ms e x c =
        let chosen =
          choose-stands g id queue clock limit (held s.claims) s.tables law
            (subst (Mem id) e (contains-Mem id (message_ids ms) (ground (arith, c)))) in
        let waits : stands id q pending s.tables.rows ≡ true =
          subst (λ t. stands id t pending s.tables.rows ≡ true)
            ((str_eq_iff queue q).0 (ground (arith, c))) chosen.0 in
        let undelivered : count_claims id q s.delivered ≢ 1 =
          λ one. let bad : true ≡ false = sym waits ∙ x.1 one in cc in
        ground (arith, x.0, free_count id q s.claims chosen.1, undelivered)

    opened-Exclusive :
        (s : Consumers) (queue : Str) (limit : ℕ) (clock : Time) (ms : List Message)
        → message_ids ms ≡ ids (choose g queue clock limit (held s.claims) s.tables)
        → Exclusive id q s
        → Exclusive id q (opened s queue ms)
    unfolding opened count_claims
    opened-Exclusive s queue limit clock [] e x = x
    opened-Exclusive s queue limit clock (m ∷ ms) e x = (
      elim (Bool-cases (claims_message id q (record { queue = queue; messages = m ∷ ms }))) [
        | inl c ↦ ground (arith, fresh_claim s queue limit clock (m ∷ ms) e x c, c)
        | inr c ↦ ground (arith, x.0, c)
      ],
      x.1,
    )

    move-Exclusive :
        (s : Consumers) (m : Move) → Spares id m → Exclusive id q s → Exclusive id q (move g s m)
    unfolding move
    move-Exclusive s (begin_claim queue limit clock) h x =
        (elim (due_messages g queue clock limit (held s.claims) s.tables)
            as (λ r.
              After
                (λ ms d.
                  (d ≡ s.tables)
                  × (message_ids ms ≡ ids (choose g queue clock limit (held s.claims) s.tables)))
                r
              → Exclusive id q (elim r [ err e ↦ s | ok (ms, db) ↦ opened s queue ms ])) [
                | err e ↦ λ k. x
                | ok (ms, d) ↦ λ k. opened-Exclusive s queue limit clock ms k.1 x
              ])
          (due_messages-After g _ queue clock limit (held s.claims) s.tables (λ ms e. e))
    move-Exclusive s (commit_claim n faults) h x =
        (elim (nth_claim n s.claims)
            as (λ o.
              nth_claim n s.claims ≡ o
              → Exclusive id q (elim o [ none ↦ s | some c ↦ committing c ])) [
                | none ↦ λ k. x
                | some c ↦ λ k.
                    committed-Exclusive (without c) c (marked c faults s.tables)
                      (marked-Returned c faults s.tables)
                      (subst (λ t. count_claims id q s.delivered + t ≤ 1)
                        (sym (taken_count id q n s.claims c k)) x.0)
                      x.1
              ])
          refl
      where
        without : Claim → Consumers
        without c = record s { claims = drop_claim n s.claims }

        committing : Claim → Consumers
        committing c = committed (without c) c (marked c faults s.tables)
    move-Exclusive s (abort_claim n) h x = (ground (arith, x.0, dropped_count id q n s.claims), x.1)
    move-Exclusive s (arrive faults queue msg now) h x =
        (x.0, λ one. arrive-NotWaiting faults s.tables queue msg now h (x.1 one))
    move-Exclusive s (settle faults queue other) h x =
        (x.0, λ one. settle-NotWaiting faults s.tables queue other (x.1 one))

    moves-Exclusive :
        (s : Consumers) (l : List Move)
        → All (Spares id) l
        → Exclusive id q s
        → Exclusive id q (moves g s l)
    unfolding moves
    moves-Exclusive s [] h x = x
    moves-Exclusive s (m ∷ l) h x = moves-Exclusive (move g s m) l h.1 (move-Exclusive s m h.0 x)

    -- If ORDER BY returns the selected rows in some order, then from any tables on, however the queries,
    -- the commits and the rollbacks of overlapping Dequeue calls, the arrivals of other messages and the
    -- acknowledgements follow one another, and whatever interrupts them, at most one Dequeue delivers the
    -- message of a queue.
    pub moves_deliver_once :
        (db : Database) (l : List Move)
        → All (Spares id) l
        → count_claims id q
            (moves g (record { tables = db; claims = []; delivered = [] }) l).delivered
          ≤ 1
    moves_deliver_once db l h =
        let x =
          moves-Exclusive (record { tables = db; claims = []; delivered = [] }) l h
            (start id q db) in
        ground (arith, x.0)
