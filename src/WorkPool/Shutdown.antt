-- ===== src/WorkPool/Shutdown.antt =====
-- `Close` of workpool/workpool.go: what holds when its wait is over, and while the pool runs.
use blog_go.Prelude.{
  ℕ, zero, suc, ◌+◌, ◌≤◌, ◌≡◌, refl, sym, ap, ◌∙◌, Bool, true, false, List, [], ◌∷◌, ◌++◌, arith,
  length, length-append,
}
use blog_go.WorkPool.{
  Worker, idle, stopped, busy, Pool, new_work_pool, idle_workers, Label, accepts, refuses, takes,
  finishes, closes, stops, Step, push, hand, refuse, take_task, finish, close, stop, Run, start,
  step, accepted_of, finished_of, running, all_stopped,
}
use blog_go.WorkPool.Conservation.{count, pending, step-count}

module _ {T : Type 0} (q : T → Bool) where
  counts_split :
      (l : Label T) (ls : List (Label T))
      → (count q (accepted_of (l ∷ ls)) ≡ count q (accepted_of (l ∷ [])) + count q (accepted_of ls))
        × (count q (finished_of (l ∷ ls))
            ≡ count q (finished_of (l ∷ [])) + count q (finished_of ls))
  counts_split (accepts t) ls = (ground arith, ground arith)
  counts_split (refuses t) ls = (ground arith, ground arith)
  counts_split (takes t) ls = (ground arith, ground arith)
  counts_split (finishes t) ls = (ground arith, ground arith)
  counts_split closes ls = (ground arith, ground arith)
  counts_split stops ls = (ground arith, ground arith)

  -- At every moment of a run, each task that was accepted is over, in work or in the channel, once: for
  -- every kind of task, those accepted and those there at the start are as many as those over and those
  -- still there.
  pub run-count :
      (p p' : Pool T) (ls : List (Label T))
      → Run p ls p'
      → count q (accepted_of ls) + pending q p ≡ count q (finished_of ls) + pending q p'
  run-count p p' ls (start _) = refl
  run-count p p' ls (step {q = mid} {l = l} {ls = rest} first more) =
      let (a, f) = counts_split l rest in
      ground (arith, step-count q p mid l first, run-count mid p' rest more)

module _ {T : Type 0} where
  pub some_stopped : List (Worker T) → Bool
  some_stopped [] = false
  some_stopped (stopped ∷ ws) = true
  some_stopped (idle ∷ ws) = some_stopped ws
  some_stopped (busy t ∷ ws) = some_stopped ws

  -- The channel is within its size; once a worker has left its loop, the channel is closed and empty;
  -- there is at least one worker.
  pub record IsOrderly (p : Pool T) : Type 0 where
    pub bounded : length p.queue ≤ p.queue_size
    pub drained : some_stopped p.workers ≡ true → (p.queue ≡ []) × (p.closed ≡ true)
    pub staffed : 1 ≤ length p.workers

  same_stopped :
      (ws vs : List (Worker T)) (t : T)
      → some_stopped (ws ++ busy t ∷ vs) ≡ some_stopped (ws ++ idle ∷ vs)
  unfolding some_stopped
  same_stopped [] vs t = refl
  same_stopped (idle ∷ ws) vs t = same_stopped ws vs t
  same_stopped (stopped ∷ ws) vs t = refl
  same_stopped (busy u ∷ ws) vs t = same_stopped ws vs t

  staffed_still : (ws vs : List (Worker T)) (w : Worker T) → 1 ≤ length (ws ++ w ∷ vs)
  staffed_still ws vs w = ground (arith, length-append ws (w ∷ vs))

  step-IsOrderly : (p p' : Pool T) (l : Label T) → Step p l p' → IsOrderly p → IsOrderly p'
  step-IsOrderly p p' l (push _ t free room) o = record {
    bounded = ground (arith, length-append p.queue (t ∷ []));
    drained = λ h. absurd (ground (arith, o.drained h));
    staffed = o.staffed;
  }
  step-IsOrderly p p' l (hand _ t ws vs free empty at) o = record {
    bounded = o.bounded;
    drained = λ h. o.drained (ap some_stopped at ∙ sym (same_stopped ws vs t) ∙ h);
    staffed = staffed_still ws vs (busy t);
  }
  step-IsOrderly p p' l (refuse _ t free full) o = o
  step-IsOrderly p p' l (take_task _ t ts ws vs front at) o = record {
    bounded = ground (arith, ap length front, o.bounded);
    drained = λ h.
        absurd (ground (arith, o.drained (ap some_stopped at ∙ sym (same_stopped ws vs t) ∙ h)));
    staffed = staffed_still ws vs (busy t);
  }
  step-IsOrderly p p' l (finish _ t ws vs at) o = record {
    bounded = o.bounded;
    drained = λ h. o.drained (ap some_stopped at ∙ same_stopped ws vs t ∙ h);
    staffed = staffed_still ws vs idle;
  }
  step-IsOrderly p p' l (close _ free) o = record {
    bounded = o.bounded;
    drained = λ h. ((o.drained h).0, refl);
    staffed = o.staffed;
  }
  step-IsOrderly p p' l (stop _ ws vs over empty at) o = record {
    bounded = o.bounded;
    drained = λ h. (empty, over);
    staffed = staffed_still ws vs stopped;
  }

  run-IsOrderly : (p p' : Pool T) (ls : List (Label T)) → Run p ls p' → IsOrderly p → IsOrderly p'
  run-IsOrderly p p' ls (start _) o = o
  run-IsOrderly p p' ls (step {q = mid} {l = l} {ls = rest} first more) o =
      run-IsOrderly mid p' rest more (step-IsOrderly p mid l first o)

none_stopped : (T : Type 0) (n : ℕ) → some_stopped (idle_workers {T = T} n) ≡ false
unfolding some_stopped
none_stopped T zero = refl
none_stopped T (suc n) = none_stopped T n

module _ {T : Type 0} where
  new-IsOrderly : (n k : ℕ) → IsOrderly (new_work_pool {T = T} (suc n) k)
  unfolding new_work_pool
  new-IsOrderly n k = record {
    bounded = omega arith;
    drained = λ h. absurd (ground (arith, none_stopped T (suc n)));
    staffed = omega arith;
  }

  over-some_stopped :
      (ws : List (Worker T)) → 1 ≤ length ws → all_stopped ws ≡ true → some_stopped ws ≡ true
  unfolding some_stopped
  over-some_stopped [] h k = absurd (ground arith)
  over-some_stopped (stopped ∷ ws) h k = refl
  over-some_stopped (idle ∷ ws) h k = absurd (ground arith)
  over-some_stopped (busy t ∷ ws) h k = absurd (ground arith)

  over-running : (ws : List (Worker T)) → all_stopped ws ≡ true → running ws ≡ []
  over-running [] h = refl
  over-running (stopped ∷ ws) h = over-running ws h
  over-running (idle ∷ ws) h = absurd (ground arith)
  over-running (busy t ∷ ws) h = absurd (ground arith)

-- When the wait of `Close` is over, every task for which `TryPush` returned true has been handled, to its
-- end or to a panic, exactly once, and no other: for every kind of task, as many were accepted as are
-- over; for a pool with at least one worker.
pub close-handled :
    {T : Type 0} (q : T → Bool) (n k : ℕ) (ls : List (Label T)) (p : Pool T)
    → Run (new_work_pool (suc n) k) ls p
    → all_stopped p.workers ≡ true
    → count q (accepted_of ls) ≡ count q (finished_of ls)
unfolding new_work_pool pending
close-handled q n k ls p run over =
    let o = run-IsOrderly _ p ls run (new-IsOrderly n k) in
    let (empty, closed) = o.drained (over-some_stopped p.workers o.staffed over) in
    ground (
      arith,
      run-count q _ p ls run,
      ap (count q) empty,
      ap (count q) (over-running p.workers over),
      no_running (suc n),
    )
  where
    no_running : (m : ℕ) → count q (running (idle_workers m)) ≡ 0
    no_running zero = refl
    no_running (suc m) = no_running m

-- The channel never holds more tasks than its size, whatever happens to the pool.
pub run-bounded :
    {T : Type 0} (n k : ℕ) (ls : List (Label T)) (p : Pool T)
    → Run (new_work_pool (suc n) k) ls p
    → length p.queue ≤ p.queue_size
run-bounded n k ls p run = (run-IsOrderly _ p ls run (new-IsOrderly n k)).bounded
