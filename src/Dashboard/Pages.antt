-- ===== src/Dashboard/Pages.antt =====
-- internal/dashboard/handler.go: which queues the pages show.
use shoebox.Base.{
  ℕ, zero, suc, ◌≤◌, List, [], ◌∷◌, ◌++◌, Perm, ◌+◌, leb→le, length-append, arith, if_elim, length,
  take, leb,
}
use shoebox.Base.Text.{Str, str_ltb}
use shoebox.Storage.{ok, err}
use shoebox.Storage.Interface.{Store}
use mathlib.Core.List.Perm
use shoebox.Dashboard.{
  QueueStat, place_name, sort_names, queue_stat, stats_of, collect_stats, truncate_payload,
  ellipsis,
}

module _ {S : Type 0} (store : Store S) (s : S) where
  row_of : Str → List QueueStat → List QueueStat
  row_of q rest = elim (store.stats s q) [ err e ↦ rest | ok stats ↦ queue_stat q stats ∷ rest ]

  row_of-Perm : (q : Str) (xs ys : List QueueStat) → Perm xs ys → Perm (row_of q xs) (row_of q ys)
  unfolding row_of
  row_of-Perm q xs ys p =
      elim (store.stats s q)
        as (λ r.
          Perm (elim r [ err e ↦ xs | ok stats ↦ queue_stat q stats ∷ xs ])
            (elim r [ err e ↦ ys | ok stats ↦ queue_stat q stats ∷ ys ])) [
              | err e ↦ p
              | ok stats ↦ Perm.cons (queue_stat q stats) p
            ]

  row_of-swap :
      (q x : Str) (xs : List QueueStat) → Perm (row_of x (row_of q xs)) (row_of q (row_of x xs))
  unfolding row_of
  row_of-swap q x xs =
      elim (store.stats s q)
        as (λ r.
          Perm (row_of x (elim r [ err e ↦ xs | ok stats ↦ queue_stat q stats ∷ xs ]))
            (elim r [ err e ↦ row_of x xs | ok stats ↦ queue_stat q stats ∷ row_of x xs ])) [
              | err e ↦ Perm.refl _
              | ok stats ↦
                  elim (store.stats s x)
                    as (λ r.
                      Perm
                        (elim r [
                          | err e ↦ queue_stat q stats ∷ xs
                          | ok t ↦ queue_stat x t ∷ queue_stat q stats ∷ xs
                        ])
                        (queue_stat q stats
                          ∷ (elim r [ err e ↦ xs | ok t ↦ queue_stat x t ∷ xs ]))) [
                            | err e ↦ Perm.refl _
                            | ok t ↦ Perm.swap (queue_stat q stats) (queue_stat x t) xs
                          ]
            ]

  placed-Perm :
      (q : Str) (xs : List Str)
      → Perm (stats_of store s (place_name q xs)) (row_of q (stats_of store s xs))
  unfolding place_name stats_of row_of
  placed-Perm q [] = Perm.refl _
  placed-Perm q (x ∷ xs) =
      if_elim (λ l. Perm (stats_of store s l) (row_of q (stats_of store s (x ∷ xs)))) (str_ltb x q)
        (x ∷ place_name q xs) (q ∷ x ∷ xs)
        (λ e.
          Perm.trans
            (row_of-Perm x (stats_of store s (place_name q xs)) (row_of q (stats_of store s xs))
              (placed-Perm q xs))
            (row_of-swap q x (stats_of store s xs)))
        (λ e. Perm.refl _)

  -- Sorting the names changes the order of the rows and nothing else: the page has a row for each
  -- registered queue whose statistics are read, however the others fail.
  collect_stats-Perm :
      (queues : List Str) → Perm (collect_stats store s queues) (stats_of store s queues)
  unfolding collect_stats sort_names stats_of row_of
  collect_stats-Perm [] = Perm.refl _
  collect_stats-Perm (q ∷ qs) = Perm.trans (placed-Perm q (sort_names qs)) (
      row_of-Perm q (stats_of store s (sort_names qs)) (stats_of store s qs)
        (collect_stats-Perm qs))

length-take_le : {A : Type 0} (n : ℕ) (xs : List A) → length (take n xs) ≤ n
length-take_le zero xs = omega arith
length-take_le (suc n) [] = omega arith
length-take_le (suc n) (x ∷ xs) = omega (arith, length-take_le n xs)

-- A payload that is shown has at most three bytes more than the limit.
truncate_payload-bound : (payload : Str) (n : ℕ) → length (truncate_payload payload n) ≤ n + 3
unfolding truncate_payload
truncate_payload-bound payload n =
    if_elim (λ t. length t ≤ n + 3) (leb (length payload) n) payload (take n payload ++ ellipsis)
      (λ e. ground (arith, leb→le (length payload) n e))
      (λ e. ground (arith, length-append (take n payload) ellipsis, length-take_le n payload))
