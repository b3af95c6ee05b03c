-- ===== src/WorkPool.antt =====
-- workpool/workpool.go: the channel of tasks, the workers that range over it, and what happens to them,
-- one step after the other. Between two tasks a worker is idle; a task that panics ends as one that
-- returns, since the panic is recovered around it.
pub mod Conservation
pub mod Shutdown
pub mod Draining
use blog_go.Prelude.{ℕ, zero, suc, ◌<◌, ◌≤◌, ◌≡◌, Bool, true, false, List, [], ◌∷◌, ◌++◌, length}

pub data Worker (T : Type 0) : Type 0 where
  idle stopped : Worker T
  busy : T → Worker T

pub record Pool (T : Type 0) : Type 0 where
  pub queue_size : ℕ
  pub queue : List T
  pub closed : Bool
  pub workers : List (Worker T)

abbrev pub idle_workers : {T : Type 0} → ℕ → List (Worker T)
idle_workers zero = []
idle_workers (suc n) = idle ∷ idle_workers n

unfoldable pub new_work_pool : {T : Type 0} → ℕ → ℕ → Pool T
new_work_pool workers_count queue_size = record {
  queue_size = queue_size;
  queue = [];
  closed = false;
  workers = idle_workers workers_count;
}

-- What a step shows: `TryPush` that returned true or false, a worker that takes a task, one whose task
-- is over, `Close`, and a worker that leaves its loop.
pub data Label (T : Type 0) : Type 0 where
  accepts refuses takes finishes : T → Label T
  closes stops : Label T

-- A push on a closed channel panics: there is no step for it.
pub data Step {T : Type 0} : Pool T → Label T → Pool T → Type 0 where
  -- the channel has room
  push :
      (p : Pool T) (t : T)
      → p.closed ≡ false
      → length p.queue < p.queue_size
      → Step p (accepts t) (record p { queue = p.queue ++ t ∷ [] })
  -- a worker waits at the empty channel and gets the task at once
  hand :
      (p : Pool T) (t : T) (ws vs : List (Worker T))
      → p.closed ≡ false
      → p.queue ≡ []
      → p.workers ≡ ws ++ idle ∷ vs
      → Step p (accepts t) (record p { workers = ws ++ busy t ∷ vs })
  refuse :
      (p : Pool T) (t : T) → p.closed ≡ false → p.queue_size ≤ length p.queue → Step p (refuses t) p
  take_task :
      (p : Pool T) (t : T) (ts : List T) (ws vs : List (Worker T))
      → p.queue ≡ t ∷ ts
      → p.workers ≡ ws ++ idle ∷ vs
      → Step p (takes t) (record p { queue = ts; workers = ws ++ busy t ∷ vs })
  finish :
      (p : Pool T) (t : T) (ws vs : List (Worker T))
      → p.workers ≡ ws ++ busy t ∷ vs
      → Step p (finishes t) (record p { workers = ws ++ idle ∷ vs })
  close : (p : Pool T) → p.closed ≡ false → Step p closes (record p { closed = true })
  -- `range` ends on a channel that is closed and empty
  stop :
      (p : Pool T) (ws vs : List (Worker T))
      → p.closed ≡ true
      → p.queue ≡ []
      → p.workers ≡ ws ++ idle ∷ vs
      → Step p stops (record p { workers = ws ++ stopped ∷ vs })

-- A run, by its labels.
pub data Run {T : Type 0} : Pool T → List (Label T) → Pool T → Type 0 where
  start : (p : Pool T) → Run p [] p
  step :
      {p q r : Pool T} {l : Label T} {ls : List (Label T)}
      → Step p l q
      → Run q ls r
      → Run p (l ∷ ls) r

module _ {T : Type 0} where
  abbrev pub accepted_of : List (Label T) → List T
  accepted_of [] = []
  accepted_of (accepts t ∷ ls) = t ∷ accepted_of ls
  accepted_of (refuses t ∷ ls) = accepted_of ls
  accepted_of (takes t ∷ ls) = accepted_of ls
  accepted_of (finishes t ∷ ls) = accepted_of ls
  accepted_of (closes ∷ ls) = accepted_of ls
  accepted_of (stops ∷ ls) = accepted_of ls

  abbrev pub finished_of : List (Label T) → List T
  finished_of [] = []
  finished_of (finishes t ∷ ls) = t ∷ finished_of ls
  finished_of (accepts t ∷ ls) = finished_of ls
  finished_of (refuses t ∷ ls) = finished_of ls
  finished_of (takes t ∷ ls) = finished_of ls
  finished_of (closes ∷ ls) = finished_of ls
  finished_of (stops ∷ ls) = finished_of ls

  abbrev pub running : List (Worker T) → List T
  running [] = []
  running (idle ∷ ws) = running ws
  running (stopped ∷ ws) = running ws
  running (busy t ∷ ws) = t ∷ running ws

  -- `p.wg.Wait()` returns.
  abbrev pub all_stopped : List (Worker T) → Bool
  all_stopped [] = true
  all_stopped (stopped ∷ ws) = all_stopped ws
  all_stopped (idle ∷ ws) = false
  all_stopped (busy t ∷ ws) = false
