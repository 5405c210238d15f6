-- ===== src/Osv/Kept.antt =====
-- `eventsToIntervals` of internal/osv/osv.go on any events, in order or not.
use pkgwatch.Base.{
  true, false, List, [], ◌∷◌, Option, none, some, ◌≡◌, refl, sym, All, Any, arith, Bool-cases, inl,
  inr, ◌⊎◌,
}
use mathlib.Core.Path.{subst}
use pkgwatch.Base.Text.{Text, is_empty}
use pkgwatch.Match.{Range}
use pkgwatch.Osv.{Event, opened, flush, current_or_start, intervals_from, events_to_intervals}

-- What an event says is in one of the intervals: its start, or else the fix, or else the last
-- affected version; an event that says none of these is about commits.
abbrev pub IsKept : List Range → Event → Type 0
IsKept out ev =
    Any (λ r. r.introduced ≡ ev.introduced) out
    ⊎ ((ev.introduced ≡ []) × Any (λ r. r.fixed ≡ ev.fixed) out)
    ⊎ ((ev.introduced ≡ []) × (ev.fixed ≡ []) × Any (λ r. r.last_affected ≡ ev.last_affected) out)
    ⊎ ((ev.introduced ≡ []) × (ev.fixed ≡ []) × (ev.last_affected ≡ []))

IsKept-more : (r : Range) (out : List Range) (ev : Event) → IsKept out ev → IsKept (r ∷ out) ev
IsKept-more r out ev h = ground arith

All-more :
    (r : Range) (out : List Range) (evs : List Event)
    → All (IsKept out) evs
    → All (IsKept (r ∷ out)) evs
All-more r out [] h = tt
All-more r out (ev ∷ evs) h = (IsKept-more r out ev h.0, All-more r out evs h.1)

All-flush :
    (current : Option Range) (out : List Range) (evs : List Event)
    → All (IsKept out) evs
    → All (IsKept (flush current out)) evs
All-flush none out evs h = h
All-flush (some r) out evs h = All-more r out evs h

-- The interval that is open keeps its start.
start_kept :
    (c : Range) (events : List Event)
    → Any (λ r. r.introduced ≡ c.introduced) (intervals_from (some c) events)
unfolding intervals_from current_or_start
start_kept c [] = inl refl
start_kept c (ev ∷ events) = elim (Bool-cases (is_empty ev.introduced)) [
  | inr i ↦ rw i (inl refl)
  | inl i ↦ elim (Bool-cases (is_empty ev.fixed)) [
    | inr f ↦ rw (i, f) (inl refl)
    | inl f ↦ elim (Bool-cases (is_empty ev.last_affected)) [
      | inr l ↦ rw (i, f, l) (inl refl)
      | inl l ↦ rw (i, f, l) (start_kept c events)
    ]
  ]
]

flush-Any :
    (current : Option Range) (out : List Range) (s : Text)
    → Any (λ r. r.introduced ≡ s) out
    → Any (λ r. r.introduced ≡ s) (flush current out)
flush-Any none out s h = h
flush-Any (some r) out s h = inr h

is_empty-eq : (s : Text) → is_empty s ≡ true → s ≡ []
is_empty-eq [] h = refl
is_empty-eq (c ∷ s) h = cc

module _ (current : Option Range) (ev : Event) (events : List Event)
    (i : is_empty ev.introduced ≡ true) where
  at_fix :
      is_empty ev.fixed ≡ false
      → (r : Range) × (r.fixed ≡ ev.fixed)
        × (intervals_from current (ev ∷ events) ≡ r ∷ intervals_from none events)
  unfolding intervals_from
  at_fix f = (record (current_or_start current) { fixed = ev.fixed }, refl, rw (i, f))

  at_last :
      is_empty ev.fixed ≡ true
      → is_empty ev.last_affected ≡ false
      → (r : Range) × (r.last_affected ≡ ev.last_affected)
        × (intervals_from current (ev ∷ events) ≡ r ∷ intervals_from none events)
  unfolding intervals_from
  at_last f l =
      (record (current_or_start current) { last_affected = ev.last_affected }, refl, rw (i, f, l))

  at_limit :
      is_empty ev.fixed ≡ true
      → is_empty ev.last_affected ≡ true
      → intervals_from current (ev ∷ events) ≡ intervals_from current events
  unfolding intervals_from
  at_limit f l = rw (i, f, l)

at_start :
    (current : Option Range) (ev : Event) (events : List Event)
    → is_empty ev.introduced ≡ false
    → intervals_from current (ev ∷ events)
      ≡ flush current (intervals_from (some (opened ev.introduced)) events)
unfolding intervals_from
at_start current ev events i = rw i

All-IsKept :
    (current : Option Range) (events : List Event)
    → All (IsKept (intervals_from current events)) events
unfolding intervals_from
All-IsKept current [] = tt
All-IsKept current (ev ∷ events) =
    go (All-IsKept (some (opened ev.introduced)) events) (All-IsKept none events)
      (All-IsKept current events)
  where
    To : List Range → Type 0
    To out = IsKept out ev × All (IsKept out) events

    go :
        All (IsKept (intervals_from (some (opened ev.introduced)) events)) events
        → All (IsKept (intervals_from none events)) events
        → All (IsKept (intervals_from current events)) events
        → To (intervals_from current (ev ∷ events))
    go started closed same = elim (Bool-cases (is_empty ev.introduced)) [
      | inr i ↦ subst To (sym (at_start current ev events i)) (
        inl (flush-Any current _ ev.introduced (start_kept (opened ev.introduced) events)),
        All-flush current _ events started,
      )
      | inl i ↦ elim (Bool-cases (is_empty ev.fixed)) [
        | inr f ↦
            let (r, same_fix, step) = at_fix current ev events i f in
            subst To (sym step)
              (inr (inl (is_empty-eq ev.introduced i, inl same_fix)), All-more r _ events closed)
        | inl f ↦ elim (Bool-cases (is_empty ev.last_affected)) [
          | inr l ↦
              let (r, same_last, step) = at_last current ev events i f l in
              subst To (sym step) (
                inr (
                    inr (inl (is_empty-eq ev.introduced i, is_empty-eq ev.fixed f, inl same_last))),
                All-more r _ events closed,
              )
          | inl l ↦ subst To (sym (at_limit current ev events i f l)) (
            inr (
                inr (
                  inr (
                    is_empty-eq ev.introduced i,
                    is_empty-eq ev.fixed f,
                    is_empty-eq ev.last_affected l,
                  ))),
            same,
          )
        ]
      ]
    ]

-- No start, fix or last affected version that an event gives is dropped, whatever their order.
pub events_to_intervals-IsKept :
    (events : List Event) → All (IsKept (events_to_intervals events)) events
unfolding events_to_intervals
events_to_intervals-IsKept events = All-IsKept none events
