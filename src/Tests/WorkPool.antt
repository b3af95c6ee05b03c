-- ===== src/Tests/WorkPool.antt =====
-- A run of workpool/workpool.go: one worker and a channel of one task.
use blog_go.Prelude.{
  ℕ, ◌+◌, ◌≡◌, ◌≤◌, ◌⊎◌, refl, Bool, true, false, List, [], ◌∷◌, ◌==◌, arith, length,
}
use blog_go.WorkPool.{
  Pool, Worker, idle, stopped, busy, Label, accepts, refuses, takes, finishes, closes, stops, Run,
  push, hand, refuse, take_task, finish, close, stop, start, step, new_work_pool, accepted_of,
  finished_of, all_stopped,
}
use blog_go.WorkPool.Draining.{work_left, CanStep, close-terminates}
use blog_go.WorkPool.Conservation.{count, pending}
use blog_go.WorkPool.Shutdown.{run-count, close-handled}

abbrev pool : List ℕ → Bool → Worker ℕ → Pool ℕ
pool queue closed worker = record {
  queue_size = 1;
  queue = queue;
  closed = closed;
  workers = worker ∷ [];
}

-- The task 7 goes to the waiting worker, 8 waits in the channel, 9 is refused.
abbrev labels : List (Label ℕ)
labels = accepts 7 ∷ accepts 8 ∷ refuses 9 ∷ finishes 7 ∷ closes ∷ takes 8 ∷ finishes 8 ∷ stops ∷ []

a_run : Run (new_work_pool 1 1) labels (pool [] true stopped)
unfolding new_work_pool
a_run = step (hand (pool [] false idle) 7 [] [] refl refl refl) (
    step (push (pool [] false (busy 7)) 8 refl (omega arith)) (
      step (refuse (pool (8 ∷ []) false (busy 7)) 9 refl (omega arith)) (
        step (finish (pool (8 ∷ []) false (busy 7)) 7 [] [] refl) (
          step (close (pool (8 ∷ []) false idle) refl) (
            step (take_task (pool (8 ∷ []) true idle) 8 [] [] [] refl refl) (
              step (finish (pool [] true (busy 8)) 8 [] [] refl) (
                step (stop (pool [] true idle) [] [] refl refl refl)
                  (start (pool [] true stopped)))))))))

close-handled_example :
    count (λ t. t == 8) (accepted_of labels) ≡ count (λ t. t == 8) (finished_of labels)
close-handled_example = close-handled (λ t. t == 8) 0 1 labels (pool [] true stopped) a_run refl

run-count_example :
    count (λ t. t == 8) (accepted_of labels) + pending (λ t. t == 8) (new_work_pool 1 1)
    ≡ count (λ t. t == 8) (finished_of labels) + pending (λ t. t == 8) (pool [] true stopped)
run-count_example = run-count (λ t. t == 8) (new_work_pool 1 1) (pool [] true stopped) labels a_run

close-terminates_example :
    (length {A = Label ℕ} (takes 8 ∷ finishes 8 ∷ []) ≤ work_left (pool (8 ∷ []) true idle))
    × ((all_stopped {T = ℕ} (idle ∷ []) ≡ true) ⊎ CanStep (pool [] true idle))
close-terminates_example =
    close-terminates (pool (8 ∷ []) true idle) (pool [] true idle) (takes 8 ∷ finishes 8 ∷ []) refl
      (step (take_task (pool (8 ∷ []) true idle) 8 [] [] [] refl refl)
        (step (finish (pool [] true (busy 8)) 8 [] [] refl) (start (pool [] true idle))))
