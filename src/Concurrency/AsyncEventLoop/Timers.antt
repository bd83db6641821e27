-- ===== src/Concurrency/AsyncEventLoop/Timers.antt =====
-- Which delayed task the worker of src/Utils/Concurrency/AsyncEventLoop.hpp takes, and when.
use watchlist.Prelude.{
  ℕ, ◌≤◌, ◌<◌, true, false, Option, none, some, List, [], ◌∷◌, ◌≡◌, ◌⊎◌, inl, inr, refl, arith, All,
  if◌then◌else◌, Bool-cases, leb,
}
use watchlist.Concurrency.AsyncEventLoop.{
  DelayedTask, later, pop_top, Current, idle, taken, AsyncEventLoop, take_work, take_delayed,
}
use watchlist.Concurrency.AsyncEventLoop.Moves.{takes, act}

-- The order of deadlines, and of the calls that set them where deadlines are equal.
abbrev pub Before : DelayedTask → DelayedTask → Type 0
Before t u = (t.time < u.time) ⊎ ((t.time ≡ u.time) × (t.sequence ≤ u.sequence))

later-Before : (t u : DelayedTask) → later t u ≡ true → Before u t
unfolding later
later-Before t u e = ground arith

not-later-Before : (t u : DelayedTask) → later t u ≡ false → Before t u
unfolding later
not-later-Before t u e = ground arith

Before-trans : (t u v : DelayedTask) → Before t u → Before u v → Before t v
Before-trans t u v p q = ground arith

abbrev pub Stands : DelayedTask → List DelayedTask → Type 0
Stands t [] = ⊥
Stands t (u ∷ us) = (t ≡ u) ⊎ Stands t us

-- The popped task is one of the tasks, and is before them all.
abbrev IsEarliest : List DelayedTask → Option (DelayedTask × List DelayedTask) → Type 0
IsEarliest ts none = ts ≡ []
IsEarliest ts (some (top, rest)) = Stands top ts × All (λ t. Before top t) ts

All-Before :
    (t u : DelayedTask) (ts : List DelayedTask)
    → Before t u
    → All (λ v. Before u v) ts
    → All (λ v. Before t v) ts
All-Before t u [] p h = tt
All-Before t u (v ∷ ts) p h = (Before-trans t u v p h.0, All-Before t u ts p h.1)

Before-refl : (t : DelayedTask) → Before t t
Before-refl t = inr (refl, omega arith)

pop_top-IsEarliest : (ts : List DelayedTask) → IsEarliest ts (pop_top ts)
unfolding pop_top
pop_top-IsEarliest [] = refl
pop_top-IsEarliest (t ∷ ts) = after (pop_top ts) (pop_top-IsEarliest ts)
  where
    after :
        (o : Option (DelayedTask × List DelayedTask))
        → IsEarliest ts o
        → IsEarliest (t ∷ ts) (elim o [
          | none ↦ some (t, [])
          | some (top, rest) ↦ if later t top then some (top, t ∷ rest) else some (t, ts)
        ])
    after none e = rw e (inl refl, (Before-refl t, tt))
    after (some (top, rest)) (m, b) = elim (Bool-cases (later t top)) [
      | inl g ↦ rw g (inr m, (later-Before t top g, b))
      | inr g ↦ rw g (inl refl, (Before-refl t, All-Before t top ts (not-later-Before t top g) b))
    ]

-- What an idle worker does with its delayed tasks at a time.
abbrev pub TakesDue : ℕ → List DelayedTask → Current → Type 0
TakesDue now ts w =
    ((w ≡ idle) × All (λ t. now < t.time) ts)
    ⊎ ((top : DelayedTask) × Stands top ts
        × (w ≡ taken top.frame)
        × (top.time ≤ now)
        × All (λ t. Before top t) ts)

All-later :
    (now : ℕ) (top : DelayedTask) (ts : List DelayedTask)
    → now < top.time
    → All (λ t. Before top t) ts
    → All (λ t. now < t.time) ts
All-later now top [] p h = tt
All-later now top (t ∷ ts) p h = (ground (arith, h.0), All-later now top ts p h.1)

module _ {D : Type 0} where
  -- The idle worker of a running loop without ready tasks takes the delayed task with the earliest
  -- deadline, of several such tasks the one with the lowest sequence number, when that deadline has come, and
  -- no task before its deadline; it stays idle exactly when no deadline has come.
  pub takes-TakesDue :
      (now : ℕ) (s : AsyncEventLoop D)
      → s.run_started ≡ true
      → s.stopping ≡ false
      → s.current ≡ idle
      → s.ready_tasks ≡ []
      → TakesDue now s.delayed_tasks (act (takes now) s).current
  unfolding act take_work
  takes-TakesDue now s e f g r =
      simp (g, e, f, r) (due (pop_top s.delayed_tasks) (pop_top-IsEarliest s.delayed_tasks))
    where
      due :
          (o : Option (DelayedTask × List DelayedTask))
          → IsEarliest s.delayed_tasks o
          → TakesDue now s.delayed_tasks (take_delayed now o s).current
      due none h = inl (unfold take_delayed in g, rw h tt)
      due (some (top, rest)) (m, b) = elim (Bool-cases (leb top.time now)) [
        | inl come ↦ unfold take_delayed in rw come (inr (top, m, refl, ground arith, b))
        | inr early ↦
            unfold take_delayed in
            rw early (inl (g, All-later now top s.delayed_tasks (ground arith) b))
      ]
