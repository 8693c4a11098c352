-- ===== src/Dedupe/Entries.antt =====
-- internal/broker/dedupe.go: the lists of entries that stand for the maps of the stores.
use shoebox.Base.{
  ◌+◌, ◌-◌, ◌≤◌, ◌≡◌, refl, subst, List, [], ◌∷◌, ◌++◌, arith, inl, inr, Bool-cases, none, some,
  if◌then◌else◌, length,
}
use shoebox.Base.Text.{Str, str_eq, str_eq_iff, str_eq_refl, bytes, has_prefix}
use shoebox.Storage.{Time}
use shoebox.Dedupe.{Entry, find, remove, live_at, sweep, purge_queue, drop_last}

-- No key has two entries.
abbrev pub DistinctKeys : List Entry → Type 0
DistinctKeys [] = Unit {0}
DistinctKeys (e ∷ es) = (find e.key es ≡ none) × DistinctKeys es

pub find-remove :
    (j k : Str) (es : List Entry) → find j (remove k es) ≡ (if str_eq k j then none else find j es)
unfolding find remove
find-remove j k [] = ground arith
find-remove j k (e ∷ es) =
    ground (arith, find-remove j k es, str_eq_iff e.key k, str_eq_iff e.key j, str_eq_iff k j)

find-remove-none : (j k : Str) (es : List Entry) → find j es ≡ none → find j (remove k es) ≡ none
find-remove-none j k es h = rw (find-remove j k es) (ground arith)

pub remove-DistinctKeys : (k : Str) (es : List Entry) → DistinctKeys es → DistinctKeys (remove k es)
unfolding remove
remove-DistinctKeys k [] d = tt
remove-DistinctKeys k (e ∷ es) d =
    ground (arith, remove-DistinctKeys k es d.1, find-remove-none e.key k es d.0)

find-sweep-none :
    (now : Time) (j : Str) (es : List Entry) → find j es ≡ none → find j (sweep now es) ≡ none
unfolding find sweep
find-sweep-none now j [] h = refl
find-sweep-none now j (e ∷ es) h = ground (arith, find-sweep-none now j es)

pub sweep-DistinctKeys :
    (now : Time) (es : List Entry) → DistinctKeys es → DistinctKeys (sweep now es)
unfolding sweep
sweep-DistinctKeys now [] d = tt
sweep-DistinctKeys now (e ∷ es) d =
    ground (arith, sweep-DistinctKeys now es d.1, find-sweep-none now e.key es d.0)

-- From `now` on, a sweep at `now` changes the answer for no key.
pub live_at-sweep :
    (now t : Time) (j : Str) (es : List Entry)
    → DistinctKeys es
    → now ≤ t
    → live_at t (find j (sweep now es)) ≡ live_at t (find j es)
unfolding find sweep
live_at-sweep now t j [] d h = refl
live_at-sweep now t j (e ∷ es) d h =
    ground
      (arith, live_at-sweep now t j es d.1 h, str_eq_iff e.key j, find-sweep-none now j es, d.0)

pub length-remove : (k : Str) (es : List Entry) → length (remove k es) ≤ length es
unfolding remove
length-remove k [] = omega arith
length-remove k (e ∷ es) = ground (arith, length-remove k es)

pub find-purge_queue :
    (queue j : Str) (es : List Entry)
    → find j (purge_queue queue es)
      ≡ (if has_prefix j (queue ++ bytes ":") then none else find j es)
unfolding find purge_queue
find-purge_queue queue j [] = ground arith
find-purge_queue queue j (e ∷ es) = elim (Bool-cases (str_eq e.key j)) [
  | inl same ↦
      let k : e.key ≡ j = (str_eq_iff e.key j).0 same in
      rw k (ground (arith, find-purge_queue queue j es, str_eq_refl j, k))
  | inr other ↦ ground (arith, find-purge_queue queue j es)
]

pub purge_queue-DistinctKeys :
    (queue : Str) (es : List Entry) → DistinctKeys es → DistinctKeys (purge_queue queue es)
unfolding purge_queue
purge_queue-DistinctKeys queue [] d = tt
purge_queue-DistinctKeys queue (e ∷ es) d =
    ground (arith, purge_queue-DistinctKeys queue es d.1, find-purge_queue queue e.key es, d.0)

find-drop_last-none : (j : Str) (es : List Entry) → find j es ≡ none → find j (drop_last es) ≡ none
unfolding find drop_last
find-drop_last-none j [] h = refl
find-drop_last-none j (e ∷ []) h = refl
find-drop_last-none j (e ∷ f ∷ es) h = ground (arith, find-drop_last-none j (f ∷ es))

pub drop_last-DistinctKeys : (es : List Entry) → DistinctKeys es → DistinctKeys (drop_last es)
unfolding drop_last
drop_last-DistinctKeys [] d = tt
drop_last-DistinctKeys (e ∷ []) d = tt
drop_last-DistinctKeys (e ∷ f ∷ es) d =
    (find-drop_last-none e.key (f ∷ es) d.0, drop_last-DistinctKeys (f ∷ es) d.1)

pub length-drop_last : (es : List Entry) → length (drop_last es) ≡ length es - 1
unfolding drop_last
length-drop_last [] = omega arith
length-drop_last (e ∷ []) = omega arith
length-drop_last (e ∷ f ∷ es) = omega (arith, length-drop_last (f ∷ es))

remove_absent : (k : Str) (es : List Entry) → find k es ≡ none → remove k es ≡ es
unfolding find remove
remove_absent k [] h = refl
remove_absent k (e ∷ es) h = ground (arith, remove_absent k es)

-- Where a key was found, removing it shortens the list.
pub length-remove_found :
    (k : Str) (es : List Entry) (e : Entry)
    → DistinctKeys es
    → find k es ≡ some e
    → length (remove k es) + 1 ≡ length es
unfolding find remove
length-remove_found k [] e d h = cc
length-remove_found k (x ∷ es) e d h = elim (Bool-cases (str_eq x.key k)) [
  | inl same ↦
      let key : x.key ≡ k = (str_eq_iff x.key k).0 same in
      rw same (rw (remove_absent k es (subst (λ j. find j es ≡ none) key d.0)) (omega arith))
  | inr other ↦ rw other (omega (arith, length-remove_found k es e d.1 (ground arith)))
]

pub find_key : (k : Str) (es : List Entry) (e : Entry) → find k es ≡ some e → e.key ≡ k
unfolding find
find_key k [] e h = cc
find_key k (x ∷ es) e h = ground (arith, find_key k es e, str_eq_iff x.key k)

pub find-remove_self : (k : Str) (es : List Entry) → find k (remove k es) ≡ none
find-remove_self k es = rw (find-remove k k es) (rw (str_eq_refl k))
