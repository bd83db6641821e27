-- ===== src/Concurrency/AsyncEventLoop/Places.antt =====
-- How often a frame stands in the queues of src/Utils/Concurrency/AsyncEventLoop.hpp, before and after
-- the steps on each queue.
use watchlist.Prelude.{
  ℕ, ◌+◌, Option, none, some, List, [], ◌∷◌, ◌++◌, ◌≡◌, refl, arith, if◌then◌else◌, Bool-cases, inl,
  inr, Bytes, equal, ◌==◌,
}
use watchlist.Concurrency.AsyncEventLoop.{
  DelayedTask, later, pop_top, pop_back, Waiters, push_waiter, take_waiters, all_waiters, frames_of,
}

-- How often a frame stands in a list.
unfoldable pub times : ℕ → List ℕ → ℕ
times x [] = 0
times x (y ∷ ys) = (if y == x then 1 else 0) + times x ys

pub times-append : (x : ℕ) (ys zs : List ℕ) → times x (ys ++ zs) ≡ times x ys + times x zs
unfolding times
times-append x [] zs = omega arith
times-append x (y ∷ ys) zs = omega (arith, times-append x ys zs)

pub times-push_waiter :
    (x : ℕ) (name : Bytes) (y : ℕ) (m : Waiters)
    → times x (all_waiters (push_waiter name y m))
      ≡ times x (all_waiters m) + (if y == x then 1 else 0)
unfolding times all_waiters push_waiter
times-push_waiter x name y [] = omega arith
times-push_waiter x name y ((k, xs) ∷ m) = elim (Bool-cases (equal k name)) [
  | inl e ↦ rw e (
      omega (
        arith,
        times-append x (xs ++ y ∷ []) (all_waiters m),
        times-append x xs (y ∷ []),
        times-append x xs (all_waiters m),
      ))
  | inr e ↦ rw e (
      omega (
        arith,
        times-append x xs (all_waiters (push_waiter name y m)),
        times-append x xs (all_waiters m),
        times-push_waiter x name y m,
      ))
]

pub times-take_waiters :
    (x : ℕ) (name : Bytes) (m : Waiters)
    → times x (take_waiters name m).0 + times x (all_waiters (take_waiters name m).1)
      ≡ times x (all_waiters m)
unfolding times all_waiters take_waiters
times-take_waiters x name [] = omega arith
times-take_waiters x name ((k, xs) ∷ m) = elim (Bool-cases (equal k name)) [
  | inl e ↦ rw e (omega (arith, times-append x xs (all_waiters m)))
  | inr e ↦ rw e (
      omega (
        arith,
        times-append x xs (all_waiters m),
        times-append x xs (all_waiters (take_waiters name m).1),
        times-take_waiters x name m,
      ))
]

-- What a pop leaves is the rest.
abbrev pub WasPopped : ℕ → List ℕ → Option (ℕ × List ℕ) → Type 0
WasPopped x xs none = xs ≡ []
WasPopped x xs (some (back, rest)) = times x xs ≡ times x rest + (if back == x then 1 else 0)

pub pop_back-WasPopped : (x : ℕ) (xs : List ℕ) → WasPopped x xs (pop_back xs)
unfolding pop_back
pop_back-WasPopped x [] = refl
pop_back-WasPopped x (y ∷ ys) = after (pop_back ys) (pop_back-WasPopped x ys)
  where
    after :
        (o : Option (ℕ × List ℕ))
        → WasPopped x ys o
        → WasPopped x
            (y ∷ ys)
            (elim o [ none ↦ some (y, []) | some (back, rest) ↦ some (back, y ∷ rest) ])
    after none e = rw e (unfold times in omega arith)
    after (some (back, rest)) e = unfold times in omega (arith, e)

abbrev pub WasTop : ℕ → List DelayedTask → Option (DelayedTask × List DelayedTask) → Type 0
WasTop x ts none = ts ≡ []
WasTop x ts (some (top, rest)) =
    times x (frames_of ts) ≡ times x (frames_of rest) + (if top.frame == x then 1 else 0)

pub pop_top-WasTop : (x : ℕ) (ts : List DelayedTask) → WasTop x ts (pop_top ts)
unfolding pop_top
pop_top-WasTop x [] = refl
pop_top-WasTop x (t ∷ ts) = after (pop_top ts) (pop_top-WasTop x ts)
  where
    after :
        (o : Option (DelayedTask × List DelayedTask))
        → WasTop x ts o
        → WasTop x (t ∷ ts) (elim o [
          | none ↦ some (t, [])
          | some (top, rest) ↦ if later t top then some (top, t ∷ rest) else some (t, ts)
        ])
    after none e = rw e (unfold times frames_of in omega arith)
    after (some (top, rest)) e = elim (Bool-cases (later t top)) [
      | inl g ↦ rw g (unfold times frames_of in omega (arith, e))
      | inr g ↦ rw g (unfold times frames_of in omega arith)
    ]
