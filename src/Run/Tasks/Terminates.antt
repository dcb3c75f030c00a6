-- ===== src/Run/Tasks/Terminates.antt =====
-- internal/flows/impl_loop/state/state.go: the recursion of `TaskStatus` over the task tree ends.
use mathlib.Core.Path.{subst}
use stepan.Base.{
  ℕ, zero, suc, ◌<◌, ◌≤◌, ◌≡◌, ◌≢◌, ◌⊎◌, refl, ap, ◌∙◌, Bool, true, false, Option, some, List, [],
  ◌∷◌, ◌==◌, ◌!=◌, string_eq, eq_iff, length, any, keep, find?, arith, inl, inr, Bool-cases,
  Option-cases, if◌then◌else◌, Result, ok, err, invalid_state, int_eq,
}
use stepan.Status.{TaskStatus, task_status_eq}
use stepan.Evidence.{TaskId, Task}
use stepan.Run.{Run, has_task, is_leaf, is_leaf_of, children}
use stepan.Run.Tasks.{
  parent_valid, tasks_valid, structure_valid, children_status, task_status_from, task_status,
}

-- How many tasks stand from the first one with the identifier on.
abbrev remaining : TaskId → List Task → ℕ
remaining id [] = 0
remaining id (t ∷ ts) = if t.id == id then suc (length ts) else remaining id ts

remaining-le : (id : TaskId) (ts : List Task) → remaining id ts ≤ length ts
remaining-le id [] = omega arith
remaining-le id (t ∷ ts) = ground (arith, remaining-le id ts)

abbrev Occurs : Task → List Task → Type 0
Occurs c [] = true ≡ false
Occurs c (t ∷ ts) = (c ≡ t) ⊎ Occurs c ts

found_any :
    (id : TaskId) (seen : List Task) (p : Task)
    → find? (λ s. s.id == id) seen ≡ some p
    → any (λ s. s.id == id) seen ≡ true
found_any id [] p found = cc
found_any id (s ∷ seen) p found = ground (arith, found_any id seen p)

seen_parent :
    (seen : List Task) (t : Task)
    → t.parent_id ≢ ""
    → parent_valid seen t ≡ true
    → any (λ s. s.id == t.parent_id) seen ≡ true
unfolding parent_valid
seen_parent seen t named valid = elim (Option-cases (find? (λ p. p.id == t.parent_id) seen)) [
  | inl missing ↦ absurd (ground (arith, eq_iff t.parent_id ""))
  | inr (p, found) ↦ found_any t.parent_id seen p found
]

-- A task that comes later has another identifier than the tasks before it.
later_differs :
    (r : Run) (index : ℕ) (seen ts : List Task) (c : Task) (id : TaskId)
    → tasks_valid r index seen ts ≡ true
    → any (λ s. s.id == id) seen ≡ true
    → Occurs c ts
    → (c.id == id) ≡ false
unfolding tasks_valid
later_differs r index seen [] c id valid before found = cc
later_differs r index seen (t ∷ ts) c id valid before (inl same) =
    ground (arith, eq_iff t.id id, same)
later_differs r index seen (t ∷ ts) c id valid before (inr later) =
    later_differs r (suc index) (t ∷ seen) ts c id (ground arith) (ground (arith, before)) later

-- The parent of a task is one of the tasks before the list, or it comes before the task in the list.
parent_earlier :
    (r : Run) (index : ℕ) (seen ts : List Task) (c : Task)
    → tasks_valid r index seen ts ≡ true
    → c.parent_id ≢ ""
    → Occurs c ts
    → (any (λ s. s.id == c.parent_id) seen ≡ true) ⊎ (remaining c.id ts < remaining c.parent_id ts)
unfolding tasks_valid
parent_earlier r index seen [] c valid named found = cc
parent_earlier r index seen (t ∷ ts) c valid named (inl same) =
    inl (rw same (seen_parent seen t (rw (← same) named) (ground arith)))
parent_earlier r index seen (t ∷ ts) c valid named (inr later) =
    let rest : tasks_valid r (suc index) (t ∷ seen) ts ≡ true = ground arith in
    let differs =
      later_differs r (suc index) (t ∷ seen) ts c t.id rest (ground (arith, eq_iff t.id t.id))
        later in
    elim (parent_earlier r (suc index) (t ∷ seen) ts c rest named later) [
      | inr earlier ↦ inr (
          ground (
            arith,
            earlier,
            differs,
            eq_iff c.id t.id,
            eq_iff t.id c.id,
            remaining-le c.parent_id ts,
            remaining-le c.id ts,
          ))
      | inl before ↦ elim (Bool-cases (t.id == c.parent_id)) [
        | inl here ↦ inr (
            ground (arith, here, differs, eq_iff c.id t.id, eq_iff t.id c.id, remaining-le c.id ts))
        | inr other ↦ inl (ground (arith, before, other))
      ]
    ]

kept_found :
    (p : Task → Bool) (t : Task) (ts : List Task) (c : Task)
    → p t ≡ false
    → Occurs c (keep p (t ∷ ts))
    → Occurs c (keep p ts)
kept_found p t ts c dropped found =
    subst (λ (b : Bool). Occurs c (if b then t ∷ keep p ts else keep p ts)) dropped found

kept_split :
    (p : Task → Bool) (t : Task) (ts : List Task) (c : Task)
    → p t ≡ true
    → Occurs c (keep p (t ∷ ts))
    → Occurs c (t ∷ keep p ts)
kept_split p t ts c kept found =
    subst (λ (b : Bool). Occurs c (if b then t ∷ keep p ts else keep p ts)) kept found

Occurs-keep :
    (p : Task → Bool) (ts : List Task) (c : Task)
    → Occurs c (keep p ts)
    → Occurs c ts × (p c ≡ true)
Occurs-keep p [] c found = cc
Occurs-keep p (t ∷ ts) c found = elim (Bool-cases (p t)) [
  | inr dropped ↦
      (let (later, fits) = Occurs-keep p ts c (kept_found p t ts c dropped found) in
        (inr later, fits))
  | inl kept ↦ elim (kept_split p t ts c kept found) [
    | inl same ↦ (inl same, (ap p same) ∙ kept)
    | inr later ↦ (let (later', fits) = Occurs-keep p ts c later in (inr later', fits))
  ]
]

children_status-ok :
    (status_of : TaskId → Option (Result TaskStatus)) (cs : List Task)
    → ((c : Task) → Occurs c cs → (s : TaskStatus) × (status_of c.id ≡ some (ok s)))
    → (s : TaskStatus) × (children_status status_of cs ≡ some (ok s))
unfolding children_status
children_status-ok status_of [] each = (TaskStatus.complete, refl)
children_status-ok status_of (c ∷ cs) each =
    let (s, found) = each c (inl refl) in
    let (rest, goes) = children_status-ok status_of cs (λ d later. each d (inr later)) in
    elim (Bool-cases (s != TaskStatus.complete)) [
      | inl unfinished ↦ (TaskStatus.pending, rw (found, children_status) (rw unfinished refl))
      | inr complete ↦ (rest, rw (found, children_status) (rw complete goes))
    ]

has_task-Occurs : (c : Task) (ts : List Task) → Occurs c ts → any (λ t. t.id == c.id) ts ≡ true
has_task-Occurs c [] found = cc
has_task-Occurs c (t ∷ ts) (inl same) =
    ground (arith, ap (λ (x : Task). x.id) same, eq_iff t.id c.id)
has_task-Occurs c (t ∷ ts) (inr later) = ground (arith, has_task-Occurs c ts later)

named_task :
    (r : Run) (index : ℕ) (seen ts : List Task) (id : TaskId)
    → tasks_valid r index seen ts ≡ true
    → any (λ t. t.id == id) ts ≡ true
    → id ≢ ""
unfolding tasks_valid
named_task r index seen [] id valid found = cc
named_task r index seen (t ∷ ts) id valid found =
    ground (arith, named_task r (suc index) (t ∷ seen) ts id, eq_iff t.id id, eq_iff t.id "")

known_remaining :
    (id : TaskId) (ts : List Task) → any (λ t. t.id == id) ts ≡ true → 0 < remaining id ts
known_remaining id [] known = cc
known_remaining id (t ∷ ts) known = ground (arith, known_remaining id ts)

module _ (r : Run) (valid : tasks_valid r 0 [] r.tasks ≡ true) where
  child_remaining :
      (id : TaskId) (c : Task)
      → any (λ t. t.id == id) r.tasks ≡ true
      → Occurs c r.tasks
      → (c.parent_id == id) ≡ true
      → remaining c.id r.tasks < remaining id r.tasks
  child_remaining id c known occurs fits =
      let same : c.parent_id ≡ id = ground (arith, eq_iff c.parent_id id) in
      let named : c.parent_id ≢ "" = rw same (named_task r 0 [] r.tasks id valid known) in
      elim (parent_earlier r 0 [] r.tasks c valid named occurs) [
        | inl seen ↦ cc
        | inr earlier ↦ rw (← same) earlier
      ]

  -- Fuel for the tasks from the first one with the identifier on is enough.
  enough_fuel :
      (fuel : ℕ) (id : TaskId)
      → has_task r id ≡ true
      → remaining id r.tasks ≤ fuel
      → (s : TaskStatus) × (task_status_from fuel r id ≡ some (ok s))
  unfolding task_status_from has_task children
  enough_fuel zero id known bound = absurd (omega (arith, bound, known_remaining id r.tasks known))
  enough_fuel (suc fuel) id known bound = elim (Bool-cases (is_leaf r id)) [
    | inl leaf ↦ (stepan.Run.leaf_status_of r id, ground arith)
    | inr parent ↦
        let each : (c : Task)
            → Occurs c (children r id)
            → (s : TaskStatus) × (task_status_from fuel r c.id ≡ some (ok s)) =
          λ c child.
            let (occurs, fits) = Occurs-keep (λ t. t.parent_id == id) r.tasks c child in
            enough_fuel fuel c.id (has_task-Occurs c r.tasks occurs)
              (omega (arith, bound, child_remaining id c known occurs fits)) in
        let (s, found) = children_status-ok (task_status_from fuel r) (children r id) each in
        (s, ground (arith, found))
  ]

-- `TaskStatus` ends: on a run whose tasks are structured as `validateStructure` asks, the fuel of the
-- recursion is enough, for a task of the run it returns a status, and for any other identifier an error.
pub task_status-ends :
    (r : Run) (id : TaskId)
    → structure_valid r ≡ true
    → ((has_task r id ≡ true) × ((s : TaskStatus) × (task_status r id ≡ some (ok s))))
      ⊎ ((has_task r id ≡ false) × (task_status r id ≡ some (err invalid_state)))
unfolding structure_valid task_status
task_status-ends r id valid =
    let tasks : tasks_valid r 0 [] r.tasks ≡ true = ground arith in
    elim (Bool-cases (has_task r id)) [
      | inl known ↦ inl (
        known,
        enough_fuel r tasks (suc (length r.tasks)) id known
            (omega (arith, remaining-le id r.tasks)),
      )
      | inr unknown ↦ inr (unknown, (unfold task_status_from in rw unknown refl))
    ]
