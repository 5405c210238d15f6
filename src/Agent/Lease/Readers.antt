-- ===== src/Agent/Lease/Readers.antt =====
-- What a reader under the lease of internal/agent/lease.go can rely on.
use pkgwatch.Base.{
  ℕ, zero, suc, Bool, true, false, ◌==◌, List, [], ◌∷◌, Option, none, some, if◌then◌else◌, ◌≡◌,
  refl, sym, ap, ◌⊎◌, inl, inr, All, All-append, arith, Bool-cases, Option-cases,
}
use mathlib.Core.Path.{subst}
use pkgwatch.Agent.Lease.{
  Handle, Swap, Lease, Action, register, begin_read, end_read, begin_swap, detach, replace, attach,
  end_swap, swap_step, idle_step, step, steps, new_lease,
}

abbrev pub Reads : Option ℕ → Handle → Type 0
Reads file h = h.attached ≡ file

-- The handles of a replacement, before and after the file is replaced.
pub record IsStanding (file : ℕ) (w : Swap) : Type 0 where
  pub pending : All (Reads (if w.replaced then none else some file)) w.pending
  pub done : All (Reads (if w.replaced then some file else none)) w.done
  pub late : w.late ≡ []

-- No reader during a replacement; and unless an error was logged, the handles are where they
-- should be.
abbrev pub Orderly : Option Swap → Lease → Type 0
Orderly none s = (s.logged ≡ true) ⊎ All (Reads (some s.file)) s.handles
Orderly (some w) s = (s.readers ≡ 0) × ((s.logged ≡ true) ⊎ IsStanding s.file w)

abbrev pub IsOrderly : Lease → Type 0
IsOrderly s = Orderly s.swap s

-- A handle is registered while a replacement is on its way.
abbrev pub is_late : Action → Lease → Bool
is_late (register i) s = elim s.swap [ none ↦ false | some w ↦ true ]
is_late begin_read s = false
is_late end_read s = false
is_late begin_swap s = false
is_late (detach ok) s = false
is_late (replace ok) s = false
is_late (attach ok) s = false
is_late end_swap s = false

abbrev pub IsTimely : List Action → Lease → Type 0
IsTimely [] s = Unit
IsTimely (a ∷ actions) s = (is_late a s ≡ false) × IsTimely actions (step a s)

module _ (s : Lease) where
  idle_step-IsOrderly : (a : Action) → s.swap ≡ none → Orderly none s → IsOrderly (idle_step a s)
  unfolding idle_step
  idle_step-IsOrderly (register i) e h =
      subst (λ o. Orderly o (idle_step (register i) s)) (sym e)
        (elim h [ inl l ↦ inl l | inr all ↦ inr (All-append _ s.handles _ all (refl, tt)) ])
  idle_step-IsOrderly begin_read e h =
      subst (λ o. Orderly o (record s { readers = suc s.readers })) (sym e) h
  idle_step-IsOrderly end_read e h = go s.readers
    where
      go :
          (n : ℕ)
          → IsOrderly (elim n as (λ _. Lease) [ zero ↦ s | suc n ↦ record s { readers = n } ])
      go zero = subst (λ o. Orderly o s) (sym e) h
      go (suc n) = subst (λ o. Orderly o (record s { readers = n })) (sym e) h
  idle_step-IsOrderly begin_swap e h = elim (Bool-cases (s.readers == 0)) [
    | inr reading ↦ rw reading (subst (λ o. Orderly o s) (sym e) h)
    | inl free ↦ rw free (
      ground arith,
      elim h [ inl l ↦ inl l | inr all ↦ inr (record { pending = all; done = tt; late = refl }) ],
    )
  ]
  idle_step-IsOrderly (detach ok) e h = subst (λ o. Orderly o s) (sym e) h
  idle_step-IsOrderly (replace ok) e h = subst (λ o. Orderly o s) (sym e) h
  idle_step-IsOrderly (attach ok) e h = subst (λ o. Orderly o s) (sym e) h
  idle_step-IsOrderly end_swap e h = subst (λ o. Orderly o s) (sym e) h

  -- The same in the course of a replacement, by what is pending and whether the file is replaced.
  same : (w : Swap) → s.swap ≡ some w → Orderly (some w) s → IsOrderly s
  same w e h = subst (λ o. Orderly o s) (sym e) h

  detach-IsOrderly :
      (ok : Bool) (pending done late : List Handle) (replaced : Bool)
      → s.swap ≡ some (record { pending = pending; done = done; late = late; replaced = replaced })
      → Orderly
          (some (record { pending = pending; done = done; late = late; replaced = replaced }))
          s
      → IsOrderly (
          swap_step
            (detach ok)
            (record { pending = pending; done = done; late = late; replaced = replaced })
            s)
  unfolding swap_step
  detach-IsOrderly ok [] done late replaced e h = same _ e h
  detach-IsOrderly ok (x ∷ rest) done late true e h = same _ e h
  detach-IsOrderly false (x ∷ rest) done late false e h = (h.0, inl (ground arith))
  detach-IsOrderly true (x ∷ rest) done late false e h = (
    h.0,
    elim h.1 [
      | inl l ↦ inl (ground arith)
      | inr st ↦ inr (record {
        pending = st.pending.1;
        done = All-append _ done _ st.done (refl, tt);
        late = st.late;
      })
    ],
  )

  attach-IsOrderly :
      (ok : Bool) (pending done late : List Handle) (replaced : Bool)
      → s.swap ≡ some (record { pending = pending; done = done; late = late; replaced = replaced })
      → Orderly
          (some (record { pending = pending; done = done; late = late; replaced = replaced }))
          s
      → IsOrderly (
          swap_step
            (attach ok)
            (record { pending = pending; done = done; late = late; replaced = replaced })
            s)
  unfolding swap_step
  attach-IsOrderly ok [] done late replaced e h = same _ e h
  attach-IsOrderly ok (x ∷ rest) done late false e h = same _ e h
  attach-IsOrderly false (x ∷ rest) done late true e h = (h.0, inl (ground arith))
  attach-IsOrderly true (x ∷ rest) done late true e h = (
    h.0,
    elim h.1 [
      | inl l ↦ inl (ground arith)
      | inr st ↦ inr (record {
        pending = st.pending.1;
        done = All-append _ done _ st.done (refl, tt);
        late = st.late;
      })
    ],
  )

  replace-IsOrderly :
      (ok : Bool) (pending done late : List Handle) (replaced : Bool)
      → s.swap ≡ some (record { pending = pending; done = done; late = late; replaced = replaced })
      → Orderly
          (some (record { pending = pending; done = done; late = late; replaced = replaced }))
          s
      → IsOrderly (
          swap_step
            (replace ok)
            (record { pending = pending; done = done; late = late; replaced = replaced })
            s)
  unfolding swap_step
  replace-IsOrderly ok (x ∷ rest) done late replaced e h = same _ e h
  replace-IsOrderly ok [] done late true e h = same _ e h
  replace-IsOrderly ok [] done late false e h = (
    h.0,
    elim h.1 [
      | inl l ↦ inl l
      | inr st ↦ inr (record { pending = st.done; done = tt; late = st.late })
    ],
  )

  end_swap-IsOrderly :
      (pending done late : List Handle) (replaced : Bool)
      → s.swap ≡ some (record { pending = pending; done = done; late = late; replaced = replaced })
      → Orderly
          (some (record { pending = pending; done = done; late = late; replaced = replaced }))
          s
      → IsOrderly (
          swap_step end_swap
            (record { pending = pending; done = done; late = late; replaced = replaced })
            s)
  unfolding swap_step
  end_swap-IsOrderly (x ∷ rest) done late replaced e h = same _ e h
  end_swap-IsOrderly [] done late false e h = same _ e h
  end_swap-IsOrderly [] done late true e h = elim h.1 [
    | inl l ↦ inl l
    | inr st ↦
        inr (All-append _ done late st.done (subst (All (Reads (some s.file))) (sym st.late) tt))
  ]

  swap_step-IsOrderly :
      (a : Action) (w : Swap)
      → s.swap ≡ some w
      → is_late a s ≡ false
      → Orderly (some w) s
      → IsOrderly (swap_step a w s)
  unfolding swap_step
  swap_step-IsOrderly (register i) w e n h = absurd (ground arith)
  swap_step-IsOrderly begin_read w e n h = same w e h
  swap_step-IsOrderly end_read w e n h = same w e h
  swap_step-IsOrderly begin_swap w e n h = same w e h
  swap_step-IsOrderly (detach ok) w e n h =
      detach-IsOrderly ok w.pending w.done w.late w.replaced e h
  swap_step-IsOrderly (replace ok) w e n h =
      replace-IsOrderly ok w.pending w.done w.late w.replaced e h
  swap_step-IsOrderly (attach ok) w e n h =
      attach-IsOrderly ok w.pending w.done w.late w.replaced e h
  swap_step-IsOrderly end_swap w e n h = end_swap-IsOrderly w.pending w.done w.late w.replaced e h

step_idle : (a : Action) (s : Lease) → s.swap ≡ none → step a s ≡ idle_step a s
unfolding step
step_idle a s e =
    ap (λ o. elim o as (λ _. Lease) [ none ↦ idle_step a s | some w ↦ swap_step a w s ]) e

step_busy : (a : Action) (s : Lease) (w : Swap) → s.swap ≡ some w → step a s ≡ swap_step a w s
unfolding step
step_busy a s w e =
    ap (λ o. elim o as (λ _. Lease) [ none ↦ idle_step a s | some v ↦ swap_step a v s ]) e

step-IsOrderly : (a : Action) (s : Lease) → is_late a s ≡ false → IsOrderly s → IsOrderly (step a s)
step-IsOrderly a s n h = elim (Option-cases s.swap) [
  | inl idle ↦
      subst IsOrderly (sym (step_idle a s idle))
        (idle_step-IsOrderly s a idle (subst (λ o. Orderly o s) idle h))
  | inr (w, busy) ↦
      subst IsOrderly (sym (step_busy a s w busy))
        (swap_step-IsOrderly s a w busy n (subst (λ o. Orderly o s) busy h))
]

steps-IsOrderly :
    (actions : List Action) (s : Lease)
    → IsTimely actions s
    → IsOrderly s
    → IsOrderly (steps actions s)
unfolding steps
steps-IsOrderly [] s t h = h
steps-IsOrderly (a ∷ actions) s t h =
    steps-IsOrderly actions (step a s) t.1 (step-IsOrderly a s t.0 h)

-- What holds while somebody reads.
abbrev pub IsReadable : Lease → Type 0
IsReadable s =
    (s.readers ≡ 0)
    ⊎ ((s.swap ≡ none) × ((s.logged ≡ true) ⊎ All (λ h. h.attached ≡ some s.file) s.handles))

-- At any moment at which somebody reads under the lease, no replacement is on its way, and every
-- registered handle reads the current file unless a failure to release or to attach one has been
-- logged; where no handle is registered while a replacement is on its way.
pub steps-IsReadable :
    (actions : List Action) → IsTimely actions new_lease → IsReadable (steps actions new_lease)
steps-IsReadable actions t =
    let h = steps-IsOrderly actions new_lease t (inr tt) in
    elim (Option-cases (steps actions new_lease).swap) [
      | inl idle ↦ inr (idle, subst (λ o. Orderly o (steps actions new_lease)) idle h)
      | inr (w, busy) ↦ inl (subst (λ o. Orderly o (steps actions new_lease)) busy h).0
    ]
