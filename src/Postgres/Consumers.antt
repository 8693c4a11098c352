-- ===== src/Postgres/Consumers.antt =====
-- internal/storage/postgres.go: several consumers whose Dequeue calls overlap. A Dequeue is two steps: the
-- query, which locks the rows that it returns (FOR UPDATE SKIP LOCKED), and the updates with the commit,
-- which release them; between the two steps anything else may happen. Another way to end is a rollback.
pub mod Waiting
pub mod Exclusive
pub mod Alone
use shoebox.Base.{
  ℕ, zero, suc, ◌+◌, Bool, true, false, ◌&&◌, List, [], ◌∷◌, ◌++◌, Option, none, some,
  if◌then◌else◌,
}
use shoebox.Base.Text.{Str, str_eq}
use shoebox.Base.Maps.{contains}
use shoebox.Storage.{Time, Message, Result, ok, err}
use shoebox.Sql.{Tx, done, boundary, ◌>>=◌, ◌>>◌, all_or_nothing}
use shoebox.Sql.Claims.{message_ids}
use shoebox.Postgres.{Engine, Database, due_messages, mark_each, enqueue}
use shoebox.Postgres.Settle.{ack}

-- The messages that a consumer has locked, or that it was given.
pub record Claim : Type 0 where
  pub queue : Str
  pub messages : List Message

pub record Consumers : Type 0 where
  pub tables : Database
  pub claims : List Claim
  pub delivered : List Claim

pub data Move : Type 0 where
  begin_claim : Str → ℕ → Time → Move
  commit_claim : ℕ → List Bool → Move
  abort_claim : ℕ → Move
  arrive : List Bool → Str → Message → Time → Move
  settle : List Bool → Str → Str → Move

-- The identifiers of the locked rows.
unfoldable pub held : List Claim → List Str
held [] = []
held (c ∷ claims) = message_ids c.messages ++ held claims

unfoldable pub nth_claim : ℕ → List Claim → Option Claim
nth_claim n [] = none
nth_claim zero (c ∷ claims) = some c
nth_claim (suc n) (c ∷ claims) = nth_claim n claims

unfoldable pub drop_claim : ℕ → List Claim → List Claim
drop_claim n [] = []
drop_claim zero (c ∷ claims) = claims
drop_claim (suc n) (c ∷ claims) = c ∷ drop_claim n claims

-- Without messages, Dequeue reports ErrEmpty.
unfoldable pub opened : Consumers → Str → List Message → Consumers
opened s queue [] = s
opened s queue (m ∷ ms) = record s {
  claims = (record { queue = queue; messages = m ∷ ms }) ∷ s.claims;
}

-- The updates of Dequeue and its commit.
unfoldable pub marked : Claim → List Bool → Database → Database × Result (Unit {0})
unfolding mark_each
marked c faults db = all_or_nothing (do mark_each c.queue c.messages; boundary) faults db

unfoldable pub committed : Consumers → Claim → Database × Result (Unit {0}) → Consumers
committed s c (db, err e) = s
committed s c (db, ok u) = record s { tables = db; delivered = c ∷ s.delivered }

module _ (g : Engine) where
  unfoldable pub move : Consumers → Move → Consumers
  unfolding held opened nth_claim drop_claim committed marked
  move s (begin_claim queue limit clock) =
      elim (due_messages g queue clock limit (held s.claims) s.tables) [
        | err e ↦ s
        | ok (ms, db) ↦ opened s queue ms
      ]
  move s (commit_claim n faults) = elim (nth_claim n s.claims) [
    | none ↦ s
    | some c ↦ committed (record s { claims = drop_claim n s.claims }) c (marked c faults s.tables)
  ]
  move s (abort_claim n) = record s { claims = drop_claim n s.claims }
  move s (arrive faults queue msg now) = record s {
    tables = (enqueue g faults s.tables queue msg now).0;
  }
  move s (settle faults queue id) = record s { tables = (ack faults s.tables queue id).0 }

  unfoldable pub moves : Consumers → List Move → Consumers
  unfolding move
  moves s [] = s
  moves s (m ∷ ms) = moves (move s m) ms

-- Whether a claim of the queue has the message, and how many have it.
unfoldable pub claims_message : Str → Str → Claim → Bool
claims_message id queue c = str_eq c.queue queue && contains id (message_ids c.messages)

unfoldable pub count_claims : Str → Str → List Claim → ℕ
unfolding claims_message
count_claims id queue [] = 0
count_claims id queue (c ∷ claims) =
    let rest = count_claims id queue claims in if claims_message id queue c then suc rest else rest
