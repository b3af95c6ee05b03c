-- ===== src/Database/Outbox/Pending.antt =====
-- The events of the table `outbox` that wait, under the statements of internal/database/outbox.sql.go.
use blog_go.Prelude.{
  ℕ, suc, zero, ◌≤◌, ◌<◌, ◌≡◌, refl, sym, ap, ◌∙◌, Bool, true, false, not, ◌||◌, List, [], ◌∷◌, map,
  if◌then◌else◌, arith, length, take, filter, any, elem, inl, inr, Bool-cases,
}
use blog_go.Models.{Uuid}
use blog_go.Database.{OutboxRow, OutboxMessageType, Tables, Stamp, Timestamptz}
use blog_go.Database.Outbox.{insert_by_age, sort_by_age, set_events_as_processed}

abbrev pub waits : OutboxRow → Bool
waits r = not r.processed_at.valid

abbrev pub waiting : Tables → List OutboxRow
waiting t = filter waits t.outbox

any-insert_by_age :
    (q : OutboxRow → Bool) (r : OutboxRow) (rs : List OutboxRow)
    → any q (insert_by_age r rs) ≡ (q r || any q rs)
unfolding insert_by_age
any-insert_by_age q r [] = refl
any-insert_by_age q r (s ∷ rs) = ground (arith, any-insert_by_age q r rs)

any-sort_by_age : (q : OutboxRow → Bool) (rs : List OutboxRow) → any q (sort_by_age rs) ≡ any q rs
unfolding sort_by_age
any-sort_by_age q [] = refl
any-sort_by_age q (r ∷ rs) =
    any-insert_by_age q r (sort_by_age rs) ∙ ap (λ b. q r || b) (any-sort_by_age q rs)

any-take :
    (q : OutboxRow → Bool) (n : ℕ) (rs : List OutboxRow)
    → any q (take n rs) ≡ true
    → any q rs ≡ true
any-take q zero rs h = absurd (ground arith)
any-take q (suc n) [] h = h
any-take q (suc n) (r ∷ rs) h = ground (arith, any-take q n rs)

-- Rows that are marked wait no more.
module _ (marks : OutboxRow → Bool) (at : Timestamptz) (sets : at.valid ≡ true) where
  abbrev mark : OutboxRow → OutboxRow
  mark r = if marks r then record r { processed_at = at } else r

  length-waiting-mark-le :
      (rs : List OutboxRow) → length (filter waits (map mark rs)) ≤ length (filter waits rs)
  length-waiting-mark-le [] = omega arith
  length-waiting-mark-le (r ∷ rs) = ground (arith, length-waiting-mark-le rs)

  length-waiting-mark-lt :
      (rs : List OutboxRow)
      → any marks (filter waits rs) ≡ true
      → length (filter waits (map mark rs)) < length (filter waits rs)
  length-waiting-mark-lt [] h = absurd (ground arith)
  length-waiting-mark-lt (r ∷ rs) h =
      ground (arith, length-waiting-mark-le rs, length-waiting-mark-lt rs)

abbrev ids_of : List OutboxRow → List Uuid
ids_of = map (λ r. r.id)

-- Marking a batch whose first event was fetched from those that wait leaves fewer of them.
pub set_events_as_processed-waiting :
    (limit : ℕ) (stamp : Stamp) (t : Tables) (e : OutboxRow) (es : List OutboxRow)
    → take limit (sort_by_age (waiting t)) ≡ e ∷ es
    → length (waiting (set_events_as_processed (ids_of (e ∷ es)) stamp t).1) < length (waiting t)
unfolding set_events_as_processed
set_events_as_processed-waiting limit stamp t e es fetched =
    let listed : OutboxRow → Bool = λ r. elem r.id (ids_of (e ∷ es)) in
    let first : any listed (e ∷ es) ≡ true = ground arith in
    let taken : any listed (take limit (sort_by_age (waiting t))) ≡ true =
      ap (any listed) fetched ∙ first in
    length-waiting-mark-lt listed (record { time = stamp.now; valid = true }) refl t.outbox
      (sym (any-sort_by_age listed (waiting t))
        ∙ any-take listed limit (sort_by_age (waiting t)) taken)

any_row : (rs : List OutboxRow) → any (λ r. true) rs ≡ false → rs ≡ []
any_row [] h = refl
any_row (r ∷ rs) h = absurd (ground arith)

take-eq-nil : (n : ℕ) (rs : List OutboxRow) → 0 < n → take n rs ≡ [] → rs ≡ []
take-eq-nil zero rs pos h = absurd (omega arith)
take-eq-nil (suc n) [] pos h = refl
take-eq-nil (suc n) (r ∷ rs) pos h = absurd (ground arith)

-- A batch is empty only where no event waits.
pub batch-eq-nil :
    (limit : ℕ) (t : Tables)
    → 0 < limit
    → take limit (sort_by_age (waiting t)) ≡ []
    → waiting t ≡ []
batch-eq-nil limit t pos h = any_row (waiting t) (
    sym (any-sort_by_age (λ r. true) (waiting t))
    ∙ ap (any (λ r. true)) (take-eq-nil limit (sort_by_age (waiting t)) pos h))

any-filter :
    (q p : OutboxRow → Bool) (rs : List OutboxRow) → any q (filter p rs) ≡ true → any q rs ≡ true
any-filter q p [] h = h
any-filter q p (r ∷ rs) h = ground (arith, any-filter q p rs)

-- What no event of the table is, no event of a batch is.
pub any-batch :
    (q : OutboxRow → Bool) (limit : ℕ) (t : Tables)
    → any q t.outbox ≡ false
    → any q (take limit (sort_by_age (waiting t))) ≡ false
any-batch q limit t h = elim (Bool-cases (any q (take limit (sort_by_age (waiting t))))) [
  | inr none_taken ↦ none_taken
  | inl taken ↦
      let sorted = any-take q limit (sort_by_age (waiting t)) taken in
      let rows = any-filter q waits t.outbox (sym (any-sort_by_age q (waiting t)) ∙ sorted) in
      absurd (ground arith)
]

-- Marking changes no event but for its mark.
pub set_events_as_processed-any :
    (q : OutboxMessageType → Bool) (ids : List Uuid) (stamp : Stamp) (t : Tables)
    → any (λ r. q r.message_type) (set_events_as_processed ids stamp t).1.outbox
      ≡ any (λ r. q r.message_type) t.outbox
unfolding set_events_as_processed
set_events_as_processed-any q ids stamp t = marked t.outbox
  where
    marked :
        (rs : List OutboxRow)
        → any
            (λ r. q r.message_type)
            (map
              (λ (r : OutboxRow).
                if elem r.id ids
                then record r { processed_at = record { time = stamp.now; valid = true } }
                else r)
              rs)
          ≡ any (λ r. q r.message_type) rs
    marked [] = refl
    marked (r ∷ rs) = ground (arith, marked rs)
