-- ===== src/Dedupe/Lru.antt =====
-- internal/broker/dedupe.go: the bounded store and what it forgets.
use shoebox.Base.{
  ℕ, ◌+◌, ◌≤◌, ◌<◌, ◌≡◌, refl, sym, Bool, true, false, List, [], ◌∷◌, arith, inl, inr, Bool-cases,
  Option-cases, some, ltb, if◌then◌else◌, length,
}
use shoebox.Base.Text.{Str, str_eq_iff, str_eq_refl}
use shoebox.Storage.{Time}
use shoebox.Dedupe.{Entry, find, remove, live_at, drop_last, lru_seen_or_add}
use shoebox.Dedupe.Entries.{
  DistinctKeys, find-remove, remove-DistinctKeys, drop_last-DistinctKeys, length-drop_last,
  length-remove, length-remove_found, find_key,
}

-- A store within its capacity, one entry to a key.
pub record Bounded (capacity : ℕ) (items : List Entry) : Type 0 where
  pub fits : length items ≤ capacity
  pub distinct : DistinctKeys items

-- What a caller of `SeenOrAdd` may rely on.
pub record Remembers (capacity : ℕ) (items : List Entry) (key : Str) (now : Time)
    (r : List Entry × Bool × ℕ) : Type 0 where
  pub seen : r.1 ≡ live_at now (find key items)
  pub bounded : Bounded capacity r.0
  pub front :
      (e : Entry) × (rest : List Entry) × (r.0 ≡ e ∷ rest) × (e.key ≡ key) × (now < e.expires_at)
  pub accounted : length r.0 + r.2 ≡ length (remove key items) + 1

add-distinct :
    (items : List Entry) (key : Str) (expires : Time)
    → DistinctKeys items
    → DistinctKeys (record { key = key; expires_at = expires } ∷ remove key items)
add-distinct items key expires d =
    (ground (arith, find-remove key key items, str_eq_refl key), remove-DistinctKeys key items d)

-- A new entry, in a store that drops its last one when it holds too many.
abbrev insert : ℕ → Entry → List Entry → List Entry × Bool × ℕ
insert capacity e others =
    if ltb capacity (length (e ∷ others))
    then (drop_last (e ∷ others), false, 1)
    else (e ∷ others, false, 0)

insert-Bounded :
    (capacity : ℕ) (e : Entry) (others : List Entry)
    → DistinctKeys (e ∷ others)
    → length others ≤ capacity
    → Bounded capacity (insert capacity e others).0
insert-Bounded capacity e others d h = elim (Bool-cases (ltb capacity (length (e ∷ others)))) [
  | inl over ↦ rw over (record {
    fits = omega (arith, length-drop_last (e ∷ others));
    distinct = drop_last-DistinctKeys (e ∷ others) d;
  })
  | inr fit ↦ rw fit (record { fits = ground arith; distinct = d })
]

insert_front :
    (capacity : ℕ) (e : Entry) (others : List Entry)
    → 0 < capacity
    → (rest : List Entry) × ((insert capacity e others).0 ≡ e ∷ rest)
unfolding drop_last
insert_front capacity e [] h = ([], ground arith)
insert_front capacity e (f ∷ others) h =
    elim (Bool-cases (ltb capacity (length (e ∷ f ∷ others)))) [
      | inl over ↦ (drop_last (f ∷ others), rw over)
      | inr fit ↦ (f ∷ others, rw fit)
    ]

insert_accounted :
    (capacity : ℕ) (e : Entry) (others : List Entry)
    → length (insert capacity e others).0 + (insert capacity e others).2 ≡ length others + 1
insert_accounted capacity e others = ground (arith, length-drop_last (e ∷ others))

Remembers-insert :
    (capacity : ℕ) (items : List Entry) (key : Str) (ttl : ℕ) (now : Time)
    → 0 < capacity
    → 0 < ttl
    → Bounded capacity items
    → live_at now (find key items) ≡ false
    → Remembers capacity items key now
        (insert capacity (record { key = key; expires_at = now + ttl }) (remove key items))
Remembers-insert capacity items key ttl now c p b h =
    let e : Entry = record { key = key; expires_at = now + ttl } in
    let front = insert_front capacity e (remove key items) c in
    record {
      seen = rw h (ground arith);
      bounded =
          insert-Bounded capacity e (remove key items)
            (add-distinct items key (now + ttl) b.distinct)
            (omega (arith, length-remove key items, b.fits));
      front = (e, front.0, front.1, refl, omega arith);
      accounted = insert_accounted capacity e (remove key items);
    }

Remembers-hit :
    (capacity : ℕ) (items : List Entry) (key : Str) (now : Time) (x : Entry)
    → Bounded capacity items
    → find key items ≡ some x
    → ltb now x.expires_at ≡ true
    → Remembers capacity items key now (x ∷ remove key items, true, 0)
Remembers-hit capacity items key now x b f live = record {
  seen = rw f (sym live);
  bounded = record {
    fits = omega (arith, length-remove_found key items x b.distinct f, b.fits);
    distinct = (
      ground (arith, find-remove x.key key items, str_eq_iff key x.key, find_key key items x f),
      remove-DistinctKeys key items b.distinct,
    );
  };
  front = (x, remove key items, refl, find_key key items x f, ground arith);
  accounted = omega arith;
}

-- On a store within a positive capacity, `SeenOrAdd` with a positive lifetime calls a key seen
-- exactly when the store holds an entry of it that has not run out. Afterwards the store is within
-- its capacity and has one entry to a key, its most recent entry is that of the key and has not run
-- out, and what it holds and the evictions it reports are together the entries of the other keys
-- and one.
lru_seen_or_add-Remembers :
    (capacity : ℕ) (items : List Entry) (key : Str) (ttl : ℕ) (now : Time)
    → 0 < capacity
    → 0 < ttl
    → Bounded capacity items
    → Remembers capacity items key now (lru_seen_or_add capacity items key ttl now)
unfolding lru_seen_or_add
lru_seen_or_add-Remembers capacity items key ttl now c p b = elim (Option-cases (find key items)) [
  | inl f ↦
      let dead : live_at now (find key items) ≡ false = rw f in
      rw (f, lru_seen_or_add) (Remembers-insert capacity items key ttl now c p b dead)
  | inr (x, f) ↦ elim (Bool-cases (ltb now x.expires_at)) [
    | inl live ↦ rw (f, lru_seen_or_add) (rw live (Remembers-hit capacity items key now x b f live))
    | inr over ↦
        let dead : live_at now (find key items) ≡ false = rw f over in
        rw (f, lru_seen_or_add) (rw over (Remembers-insert capacity items key ttl now c p b dead))
  ]
]
