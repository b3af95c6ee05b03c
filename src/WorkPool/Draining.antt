-- ===== src/WorkPool/Draining.antt =====
-- `Close` of workpool/workpool.go ends: a closed pool works off its channel and stops.
use blog_go.Prelude.{
  ℕ, ◌+◌, ◌*◌, ◌≤◌, ◌<◌, ◌≡◌, refl, ap, ◌∙◌, ◌⊎◌, inl, inr, true, List, [], ◌∷◌, ◌++◌, arith,
  length,
}
use blog_go.WorkPool.{
  Worker, idle, stopped, busy, Pool, Label, takes, finishes, stops, Step, push, hand, refuse,
  take_task, finish, close, stop, Run, start, step, all_stopped,
}

module _ {T : Type 0} where
  abbrev load : List (Worker T) → ℕ
  load [] = 0
  load (stopped ∷ ws) = load ws
  load (idle ∷ ws) = 1 + load ws
  load (busy t ∷ ws) = 2 + load ws

  -- The steps that are left: a waiting task is taken and finished, and then its worker stops.
  abbrev pub work_left : Pool T → ℕ
  work_left p = 3 * length p.queue + load p.workers

  load-append : (ws vs : List (Worker T)) → load (ws ++ vs) ≡ load ws + load vs
  load-append [] vs = omega arith
  load-append (stopped ∷ ws) vs = load-append ws vs
  load-append (idle ∷ ws) vs = ground (arith, load-append ws vs)
  load-append (busy t ∷ ws) vs = ground (arith, load-append ws vs)

  -- Once the pool is closed every step is one of the work that is left.
  step-work_left :
      (p p' : Pool T) (l : Label T)
      → Step p l p'
      → p.closed ≡ true
      → (work_left p' < work_left p) × (p'.closed ≡ true)
  step-work_left p p' l (push _ t free room) over = absurd (ground arith)
  step-work_left p p' l (hand _ t ws vs free empty at) over = absurd (ground arith)
  step-work_left p p' l (refuse _ t free full) over = absurd (ground arith)
  step-work_left p p' l (close _ free) over = absurd (ground arith)
  step-work_left p p' l (take_task _ t ts ws vs front at) over = (
    ground (
      arith,
      ap length front,
      ap load at,
      load-append ws (idle ∷ vs),
      load-append ws (busy t ∷ vs),
    ),
    over,
  )
  step-work_left p p' l (finish _ t ws vs at) over =
      (ground (arith, ap load at, load-append ws (busy t ∷ vs), load-append ws (idle ∷ vs)), over)
  step-work_left p p' l (stop _ ws vs done empty at) over =
      (ground (arith, ap load at, load-append ws (idle ∷ vs), load-append ws (stopped ∷ vs)), over)

  run-work_left :
      (p p' : Pool T) (ls : List (Label T))
      → Run p ls p'
      → p.closed ≡ true
      → (length ls + work_left p' ≤ work_left p) × (p'.closed ≡ true)
  run-work_left p p' ls (start _) over = (ground arith, over)
  run-work_left p p' ls (step {q = mid} {l = l} {ls = rest} first more) over =
      let (less, over') = step-work_left p mid l first over in
      let (fewer, over'') = run-work_left mid p' rest more over' in (ground arith, over'')

  -- The first worker that has not left its loop.
  abbrev Working : List (Worker T) → Type 0
  Working all =
      (ws : List (Worker T)) × (w : Worker T) × (vs : List (Worker T)) × (all ≡ ws ++ w ∷ vs)
      × ((w ≡ idle) ⊎ ((t : T) × (w ≡ busy t)))

  all_stopped-cases : (ws : List (Worker T)) → (all_stopped ws ≡ true) ⊎ Working ws
  all_stopped-cases [] = inl refl
  all_stopped-cases (idle ∷ ws) = inr ([], idle, ws, refl, inl refl)
  all_stopped-cases (busy t ∷ ws) = inr ([], busy t, ws, refl, inr (t, refl))
  all_stopped-cases (stopped ∷ ws) = elim (all_stopped-cases ws) [
    | inl done ↦ inl done
    | inr (us, w, vs, at, kind) ↦ inr (stopped ∷ us, w, vs, ap (λ l. stopped ∷ l) at, kind)
  ]

  abbrev pub CanStep : Pool T → Type 0
  CanStep p = (l : Label T) × (p' : Pool T) × Step p l p'

  queue-cases : (ts : List T) → (ts ≡ []) ⊎ ((t : T) × (rest : List T) × (ts ≡ t ∷ rest))
  queue-cases [] = inl refl
  queue-cases (t ∷ ts) = inr (t, ts, refl)

  idle-CanStep :
      (p : Pool T) (ws vs : List (Worker T))
      → p.closed ≡ true
      → p.workers ≡ ws ++ idle ∷ vs
      → CanStep p
  idle-CanStep p ws vs over at = elim (queue-cases p.queue) [
    | inl empty ↦ (stops, _, stop p ws vs over empty at)
    | inr (t, rest, front) ↦ (takes t, _, take_task p t rest ws vs front at)
  ]

  -- A pool on which `Close` was called makes at most as many steps as there are tasks and workers to
  -- deal with, and stands still only where every worker has left its loop, so that the wait of `Close`
  -- is over; every task ends.
  pub close-terminates :
      (p p' : Pool T) (ls : List (Label T))
      → p.closed ≡ true
      → Run p ls p'
      → (length ls ≤ work_left p) × ((all_stopped p'.workers ≡ true) ⊎ CanStep p')
  close-terminates p p' ls over run =
      let (bound, over') = run-work_left p p' ls run over in
      (
        omega arith,
        elim (all_stopped-cases p'.workers) [
          | inl done ↦ inl done
          | inr (ws, w, vs, at, inl waits) ↦
              inr (idle-CanStep p' ws vs over' (at ∙ ap (λ v. ws ++ v ∷ vs) waits))
          | inr (ws, w, vs, at, inr (t, works)) ↦
              inr (finishes t, _, finish p' t ws vs (at ∙ ap (λ v. ws ++ v ∷ vs) works))
        ],
      )
