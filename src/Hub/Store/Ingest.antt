-- ===== src/Hub/Store/Ingest.antt =====
-- `IngestEvents` of internal/repo/fleet.go: what the hub holds after a batch of events.
use pkgwatch.Base.{
  ℕ, ◌+◌, ◌≤◌, Bool, true, false, ◌&&◌, ◌||◌, ltb, ◌==◌, List, [], ◌∷◌, ◌++◌, if◌then◌else◌, any,
  ◌≡◌, refl, sym, ◌∙◌, inl, inr, All, All-append, Bool-cases, arith, any-append,
}
use pkgwatch.Base.Text.{Text, text_eq}
use pkgwatch.Base.Text.Laws.{text_eq_refl, text_eq_iff}
use pkgwatch.Base.Select.{count, count-append}
use pkgwatch.Fleet.{Event}
use pkgwatch.Hub.{Owned}
use pkgwatch.Hub.Store.{is_event, holds_event, insert_event, ingest_from}

abbrev pub has_event : ℕ → List Event → Bool
has_event i events = any (λ e. e.agent_id == i) events

-- The highest number of a batch.
abbrev pub top : List Event → ℕ
top [] = 0
top (e ∷ events) = let rest = top events in if ltb e.agent_id rest then rest else e.agent_id

absorb : (f : ℕ → Bool) (a i : ℕ) → f a ≡ true → f i ≡ ((a == i) || f i)
absorb f a i h = grind arith

pub holds_event-insert_event :
    (d : Text) (i now : ℕ) (e : Event) (rows : List (Owned Event))
    → holds_event d i (insert_event d now e rows) ≡ ((e.agent_id == i) || holds_event d i rows)
unfolding insert_event
holds_event-insert_event d i now e rows = elim (Bool-cases (holds_event d e.agent_id rows)) [
  | inl held ↦ ground (arith, absorb (λ j. holds_event d j rows) e.agent_id i held)
  | inr new ↦ ground (
    arith,
    any-append (is_event d i) rows (record { device_id = d; row = e; stored_at = now } ∷ []),
    text_eq_refl d,
  )
]

pub holds_event-insert_event_other :
    (d d' : Text) (i now : ℕ) (e : Event) (rows : List (Owned Event))
    → text_eq d d' ≡ false
    → holds_event d' i (insert_event d now e rows) ≡ holds_event d' i rows
unfolding insert_event
holds_event-insert_event_other d d' i now e rows h =
    elim (Bool-cases (holds_event d e.agent_id rows)) [
      | inl held ↦ ground arith
      | inr new ↦ ground (
        arith,
        any-append (is_event d' i) rows (record { device_id = d; row = e; stored_at = now } ∷ []),
      )
    ]

-- After a batch, the hub holds of the device what it held and the numbers of the batch.
pub holds_event-ingest_from :
    (d : Text) (i now : ℕ) (events : List Event) (n m : ℕ) (rows : List (Owned Event))
    → holds_event d i (ingest_from d now n m rows events).1
      ≡ (has_event i events || holds_event d i rows)
unfolding ingest_from
holds_event-ingest_from d i now [] n m rows = refl
holds_event-ingest_from d i now (e ∷ events) n m rows = ground (
  arith,
  holds_event-ingest_from d i now events (if holds_event d e.agent_id rows then n else n + 1)
      (if ltb m e.agent_id then e.agent_id else m) (insert_event d now e rows),
  holds_event-insert_event d i now e rows,
)

pub holds_event-ingest_from_other :
    (d d' : Text) (i now : ℕ) (events : List Event) (n m : ℕ) (rows : List (Owned Event))
    → text_eq d d' ≡ false
    → holds_event d' i (ingest_from d now n m rows events).1 ≡ holds_event d' i rows
unfolding ingest_from
holds_event-ingest_from_other d d' i now [] n m rows h = refl
holds_event-ingest_from_other d d' i now (e ∷ events) n m rows h =
    holds_event-ingest_from_other d d' i now events
      (if holds_event d e.agent_id rows then n else n + 1)
      (if ltb m e.agent_id then e.agent_id else m) (insert_event d now e rows) h
    ∙ holds_event-insert_event_other d d' i now e rows h

-- The acknowledgement is the highest number of the batch.
pub ingest_from-top :
    (d : Text) (now : ℕ) (events : List Event) (n m : ℕ) (rows : List (Owned Event))
    → (ingest_from d now n m rows events).0.1 ≡ (if ltb m (top events) then top events else m)
unfolding ingest_from
ingest_from-top d now [] n m rows = ground arith
ingest_from-top d now (e ∷ events) n m rows = ground (
  arith,
  ingest_from-top d now events (if holds_event d e.agent_id rows then n else n + 1)
      (if ltb m e.agent_id then e.agent_id else m) (insert_event d now e rows),
)

-- Each device and number stands at most once.
abbrev pub IsOnce : List (Owned Event) → Type 0
IsOnce rows = (d : Text) (i : ℕ) → count (is_event d i) rows ≤ 1

-- What is not held is counted nowhere.
count-none : {A : Type 0} (p : A → Bool) (xs : List A) → any p xs ≡ false → count p xs ≡ 0
count-none p [] h = refl
count-none p (x ∷ xs) h = ground (arith, count-none p xs)

is_event-new :
    (d d' : Text) (a i : ℕ) (rows : List (Owned Event))
    → holds_event d a rows ≡ false
    → (text_eq d d' && (a == i)) ≡ true
    → count (is_event d' i) rows ≡ 0
is_event-new d d' a i rows h k =
    rw (sym ((text_eq_iff d d').0 (ground arith)), sym (eq_of a i (ground arith)))
      (count-none (is_event d a) rows h)
  where
    eq_of : (a i : ℕ) → (a == i) ≡ true → a ≡ i
    eq_of a i k = ground arith

insert_event-IsOnce :
    (d : Text) (now : ℕ) (e : Event) (rows : List (Owned Event))
    → IsOnce rows
    → IsOnce (insert_event d now e rows)
unfolding insert_event
insert_event-IsOnce d now e rows h d' i = elim (Bool-cases (holds_event d e.agent_id rows)) [
  | inl held ↦ ground (arith, h d' i)
  | inr new ↦ ground (
    arith,
    h d' i,
    count-append (is_event d' i) rows (record { device_id = d; row = e; stored_at = now } ∷ []),
    is_event-new d d' e.agent_id i rows new,
  )
]

pub ingest_from-IsOnce :
    (d : Text) (now : ℕ) (events : List Event) (n m : ℕ) (rows : List (Owned Event))
    → IsOnce rows
    → IsOnce (ingest_from d now n m rows events).1
unfolding ingest_from
ingest_from-IsOnce d now [] n m rows h = h
ingest_from-IsOnce d now (e ∷ events) n m rows h =
    ingest_from-IsOnce d now events (if holds_event d e.agent_id rows then n else n + 1)
      (if ltb m e.agent_id then e.agent_id else m) (insert_event d now e rows)
      (insert_event-IsOnce d now e rows h)

insert_event-All :
    (P : Owned Event → Type 0) (d : Text) (now : ℕ) (e : Event) (rows : List (Owned Event))
    → P (record { device_id = d; row = e; stored_at = now })
    → All P rows
    → All P (insert_event d now e rows)
unfolding insert_event
insert_event-All P d now e rows new h = go (holds_event d e.agent_id rows)
  where
    go :
        (b : Bool)
        → All P
            (if b then rows else rows ++ record { device_id = d; row = e; stored_at = now } ∷ [])
    go true = h
    go false = All-append P rows _ h (new, tt)

pub ingest_from-All :
    (P : Owned Event → Type 0) (d : Text) (now : ℕ) (events : List Event) (n m : ℕ)
    (rows : List (Owned Event))
    → All (λ e. P (record { device_id = d; row = e; stored_at = now })) events
    → All P rows
    → All P (ingest_from d now n m rows events).1
unfolding ingest_from insert_event
ingest_from-All P d now [] n m rows new h = h
ingest_from-All P d now (e ∷ events) n m rows new h =
    ingest_from-All P d now events (if holds_event d e.agent_id rows then n else n + 1)
      (if ltb m e.agent_id then e.agent_id else m) (insert_event d now e rows) new.1
      (insert_event-All P d now e rows new.0 h)
