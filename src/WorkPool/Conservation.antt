-- ===== src/WorkPool/Conservation.antt =====
-- The tasks that a step of workpool/workpool.go moves.
use blog_go.Prelude.{
  ℕ, ◌+◌, ◌≡◌, refl, ap, ◌∙◌, Bool, List, [], ◌∷◌, ◌++◌, arith, if◌then◌else◌, filter, length,
  length-append, filter-append,
}
use blog_go.WorkPool.{
  Worker, idle, stopped, busy, Pool, Label, Step, push, hand, refuse, take_task, finish, close,
  stop, accepted_of, finished_of, running,
}

module _ {T : Type 0} (q : T → Bool) where
  -- How many tasks of a kind.
  abbrev pub count : List T → ℕ
  count ts = length (filter q ts)

  count-append : (ts us : List T) → count (ts ++ us) ≡ count ts + count us
  count-append ts us = ap length (filter-append q ts us) ∙ length-append (filter q ts) (filter q us)

  abbrev one_if : Bool → ℕ
  one_if b = if b then 1 else 0

  count-busy :
      (ws vs : List (Worker T)) (t : T)
      → count (running (ws ++ busy t ∷ vs)) ≡ one_if (q t) + count (running (ws ++ idle ∷ vs))
  count-busy [] vs t = ground arith
  count-busy (idle ∷ ws) vs t = count-busy ws vs t
  count-busy (stopped ∷ ws) vs t = count-busy ws vs t
  count-busy (busy u ∷ ws) vs t = ground (arith, count-busy ws vs t)

  running-stopped :
      (ws vs : List (Worker T)) → running (ws ++ stopped ∷ vs) ≡ running (ws ++ idle ∷ vs)
  running-stopped [] vs = refl
  running-stopped (idle ∷ ws) vs = running-stopped ws vs
  running-stopped (stopped ∷ ws) vs = running-stopped ws vs
  running-stopped (busy u ∷ ws) vs = ap (λ l. u ∷ l) (running-stopped ws vs)

  unfoldable pub pending : Pool T → ℕ
  pending p = count p.queue + count (running p.workers)

  pub step-count :
      (p p' : Pool T) (l : Label T)
      → Step p l p'
      → count (accepted_of (l ∷ [])) + pending p ≡ count (finished_of (l ∷ [])) + pending p'
  unfolding pending
  step-count p p' l (push _ t free room) = ground (arith, count-append p.queue (t ∷ []))
  step-count p p' l (hand _ t ws vs free empty at) =
      ground (arith, ap (λ (l : List (Worker T)). count (running l)) at, count-busy ws vs t)
  step-count p p' l (refuse _ t free full) = refl
  step-count p p' l (take_task _ t ts ws vs front at) = ground (
    arith,
    ap count front,
    ap (λ (l : List (Worker T)). count (running l)) at,
    count-busy ws vs t,
  )
  step-count p p' l (finish _ t ws vs at) =
      ground (arith, ap (λ (l : List (Worker T)). count (running l)) at, count-busy ws vs t)
  step-count p p' l (close _ free) = refl
  step-count p p' l (stop _ ws vs over empty at) =
      ground (
        arith,
        ap (λ (l : List (Worker T)). count (running l)) at,
        ap count (running-stopped ws vs),
      )
