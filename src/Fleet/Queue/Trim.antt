-- ===== src/Fleet/Queue/Trim.antt =====
-- `TrimQueue` of internal/repo/syncqueue.go: what it keeps and what it gives up.
use pkgwatch.Base.{
  ℕ, ◌+◌, ◌-◌, ◌≤◌, ◌<◌, Bool, true, false, not, leb, ◌==◌, List, [], ◌∷◌, if◌then◌else◌, map, ◌≡◌,
  refl, sym, ◌∙◌, ap, ◌⊎◌, inl, inr, arith, Bool-cases, All, All-append, length,
}
use mathlib.Core.Path.{subst}
use pkgwatch.Base.Select.{
  filter, take, drop, count, sort, take-append-drop, length-drop, count-append, count-sort,
  count-length, count_none, length-filter,
}
use pkgwatch.Base.Select.Sorted.{sort-IsSorted, take-before-drop, All-imp, All-filter, sort-All}
use pkgwatch.Fleet.Queue.{
  Row, is_queued, queue_depth, importance, trims_before, has_id, given_up, give_up, trim_queue,
}

abbrev pub has_number : ℕ → Row → Bool
has_number i r = r.event.agent_id == i

-- The numbers are a primary key.
abbrev pub IsKeyed : List Row → Type 0
IsKeyed rows = (i : ℕ) → count (has_number i) rows ≤ 1

trims_before_total : (r s : Row) → (trims_before r s ≡ true) ⊎ (trims_before s r ≡ true)
unfolding trims_before
trims_before_total r s = ground arith

trims_before_trans :
    (r s t : Row) → trims_before r s ≡ true → trims_before s t ≡ true → trims_before r t ≡ true
unfolding trims_before
trims_before_trans r s t h k = ground arith

-- A row whose number is in both parts of a keyed list is counted twice.
has_id-count :
    (r : Row) (rows : List Row)
    → has_id rows r ≡ true
    → 1 ≤ count (has_number r.event.agent_id) rows
has_id-count r [] h = cc
has_id-count r (s ∷ rows) h = ground (arith, has_id-count r rows)

has_id-false :
    (t rest : List Row)
    → ((i : ℕ) → count (has_number i) t + count (has_number i) rest ≤ 1)
    → All (λ r. has_id t r ≡ false) rest
has_id-false t [] h = tt
has_id-false t (r ∷ rest) h = (
  elim (Bool-cases (has_id t r)) [
    | inr n ↦ n
    | inl y ↦ absurd (ground (arith, has_id-count r t y, h r.event.agent_id))
  ],
  has_id-false t rest (λ i. below (has_number i r) _ _ (h i)),
)
  where
    below : (b : Bool) (m n : ℕ) → m + ((if b then 1 else 0) + n) ≤ 1 → m + n ≤ 1
    below b m n k = ground arith

has_id_self : (rows : List Row) → All (λ r. has_id rows r ≡ true) rows
has_id_self [] = tt
has_id_self (r ∷ rows) = (ground arith, All-imp _ _ (λ s h. ground arith) rows (has_id_self rows))

-- After the update, the rows that wait are those that waited and were not chosen.
count-give_up :
    (t rows : List Row)
    → count is_queued (map (give_up t) rows) ≡ count (λ r. not (has_id t r)) (filter is_queued rows)
count-give_up t [] = refl
count-give_up t (r ∷ rows) = elim (Bool-cases (is_queued r)) [
  | inl q ↦ elim (Bool-cases (has_id t r)) [
    | inl h ↦ rw (q, h) (omega (arith, count-give_up t rows))
    | inr h ↦ rw (q, h, q) (omega (arith, count-give_up t rows))
  ]
  | inr q ↦ elim (Bool-cases (has_id t r)) [
    | inl h ↦ rw (q, h) (omega (arith, count-give_up t rows))
    | inr h ↦ rw (q, h, q) (omega (arith, count-give_up t rows))
  ]
]

count-filter : (p q : Row → Bool) (rows : List Row) → count p (filter q rows) ≤ count p rows
count-filter p q [] = omega arith
count-filter p q (r ∷ rows) = ground (arith, count-filter p q rows)

module _ (cap : ℕ) (rows : List Row) where
  abbrev ordered : List Row
  ordered = sort trims_before (filter is_queued rows)

  abbrev excess : ℕ
  excess = queue_depth rows - cap

  abbrev chosen : List Row
  chosen = take excess ordered

  abbrev left : List Row
  left = drop excess ordered

  once : IsKeyed rows → (i : ℕ) → count (has_number i) chosen + count (has_number i) left ≤ 1
  once keyed i = omega (
    arith,
    keyed i,
    count-append (has_number i) chosen left,
    ap (count (has_number i)) (take-append-drop excess ordered),
    count-sort (has_number i) trims_before (filter is_queued rows),
    count-filter (has_number i) is_queued rows,
  )

  count-left : IsKeyed rows → count (λ r. not (has_id chosen r)) ordered ≡ length left
  count-left keyed = omega (
    arith,
    count-append waits chosen left,
    ap (count waits) (take-append-drop excess ordered),
    count_none waits chosen (All-imp _ _ (λ r h. ap not h) chosen (has_id_self chosen)),
    count-length waits left
        (All-imp _ _ (λ r h. ap not h) left (has_id-false chosen left (once keyed))),
  )
    where
      waits : Row → Bool
      waits r = not (has_id chosen r)

  length-left : length left ≡ queue_depth rows - excess
  unfolding queue_depth
  length-left = omega (
    arith,
    length-drop excess ordered,
    count-length (λ _. true) ordered (all_true ordered),
    count-sort (λ _. true) trims_before (filter is_queued rows),
    count-length (λ _. true) (filter is_queued rows) (all_true (filter is_queued rows)),
    length-filter is_queued rows,
  )
    where
      all_true : (xs : List Row) → All (λ _. ◌≡◌ {A = Bool} true true) xs
      all_true [] = tt
      all_true (x ∷ xs) = (refl, all_true xs)

  depth_after : IsKeyed rows → queue_depth (map (give_up chosen) rows) ≡ queue_depth rows - excess
  unfolding queue_depth
  depth_after keyed =
      count-give_up chosen rows
      ∙ sym (count-sort (λ r. not (has_id chosen r)) trims_before (filter is_queued rows))
      ∙ count-left keyed
      ∙ length-left

  trim_short : leb (queue_depth rows) cap ≡ true → trim_queue cap rows ≡ rows
  unfolding trim_queue
  trim_short b = ground arith

  trim_long :
      0 < cap
      → leb (queue_depth rows) cap ≡ false
      → trim_queue cap rows ≡ map (give_up (given_up cap rows)) rows
  unfolding trim_queue
  trim_long h b = ground arith

  given_up-eq : given_up cap rows ≡ chosen
  unfolding given_up
  given_up-eq = refl

  -- At most `cap` rows wait after the trim, and exactly so many if more did before.
  queue_depth-trim_queue :
      0 < cap
      → IsKeyed rows
      → queue_depth (trim_queue cap rows)
        ≡ (if leb (queue_depth rows) cap then queue_depth rows else cap)
  queue_depth-trim_queue pos_cap keyed = elim (Bool-cases (leb (queue_depth rows) cap)) [
    | inl b ↦ ap queue_depth (trim_short b) ∙ rw b
    | inr b ↦
        ap queue_depth (trim_long pos_cap b)
        ∙ ap (λ t. queue_depth (map (give_up t) rows)) given_up-eq
        ∙ depth_after keyed
        ∙ ground arith
  ]

  -- Every row that waits and is kept is as important as `t`.
  abbrev pub IsLeast : Row → Type 0
  IsLeast t =
      All
        (λ k.
          (is_queued k ≡ false)
          ⊎ (has_id (given_up cap rows) k ≡ true)
          ⊎ (importance t.event.severity ≤ importance k.event.severity))
        rows

  less_important :
      (t k : Row)
      → trims_before t k ≡ true
      → importance t.event.severity ≤ importance k.event.severity
  unfolding trims_before
  less_important t k h = ground arith

  Kept : Row → Row → Type 0
  Kept t k = (has_id chosen k ≡ true) ⊎ (importance t.event.severity ≤ importance k.event.severity)

  chosen-IsLeast : (t : Row) → All (λ k. trims_before t k ≡ true) left → IsLeast t
  unfolding given_up Kept
  chosen-IsLeast t h = All-filter is_queued (Kept t) rows (
      sort-All trims_before (Kept t) (filter is_queued rows) (
        subst (All (Kept t)) (take-append-drop excess ordered) (
          All-append (Kept t) chosen left (All-imp _ _ (λ k q. inl q) chosen (has_id_self chosen))
            (All-imp _ _ (λ k q. inr (less_important t k q)) left h))))

  -- What is given up is never more important than what is kept.
  given_up-IsLeast : All IsLeast (given_up cap rows)
  unfolding given_up
  given_up-IsLeast = All-imp _ _ chosen-IsLeast chosen (
      take-before-drop trims_before excess ordered
        (sort-IsSorted trims_before trims_before_total trims_before_trans (filter is_queued rows)))

-- TrimQueue with a positive cap, on a table whose numbers are a key, leaves as many events waiting as
-- waited before, or the cap if that is less; and no event that it gives up is more important by its
-- severity than one that still waits.
pub trim_queue_lem :
    (cap : ℕ) (rows : List Row)
    → 0 < cap
    → IsKeyed rows
    → (queue_depth (trim_queue cap rows)
        ≡ (if leb (queue_depth rows) cap then queue_depth rows else cap))
      × All (IsLeast cap rows) (given_up cap rows)
trim_queue_lem cap rows h keyed =
    (queue_depth-trim_queue cap rows h keyed, given_up-IsLeast cap rows)
