-- ===== src/Run/Counters.antt =====
-- internal/flows/impl_loop/state/state.go: `validateCounters`, which recounts the attempts.
use stepan.Base.{
  ℕ, ◌≡◌, ◌↔◌, String, Bool, true, false, ◌&&◌, ◌||◌, Option, none, some, List, [], ◌∷◌, Comparable,
  ◌==◌, ◌!=◌, string_eq, nat_eq, eq_iff, inc, is_empty, all, lookup_or, insert, if◌then◌else◌,
  arith,
}
use stepan.Status.{CycleCounter, cycle_counter_eq, cycle_counter_beq_iff}
use stepan.Operation.{Operation, first_round}
use stepan.Counters.{CycleCounters, current_cycle}
use stepan.Assignment.{Assignment, no_counters, cycle_generation, count_cycle}
use stepan.Run.{Run}

-- What the string keys of the tallies are made of. No counter and no decimal holds the separator,
-- so two keys are equal exactly when these are.
pub record CycleKey : Type 0 where
  pub counter : CycleCounter
  pub episode : String
  pub cycle : ℕ

abbrev pub cycle_key_beq : CycleKey → CycleKey → Bool
cycle_key_beq a b = a.counter == b.counter && a.episode == b.episode && a.cycle == b.cycle

pub cycle_key_beq_iff : (a b : CycleKey) → (cycle_key_beq a b ≡ true) ↔ (a ≡ b)
cycle_key_beq_iff a b =
    ground (arith, cycle_counter_beq_iff a.counter b.counter, eq_iff a.episode b.episode)

instance abbrev pub cycle_key_eq : Comparable CycleKey
cycle_key_eq = record { same = cycle_key_beq; same_iff = cycle_key_beq_iff }

-- `mapsEqual`: equal at every key, a missing one read as 0.
unfoldable pub maps_equal : List (String × ℕ) → List (String × ℕ) → Bool
maps_equal got want =
    all (λ kv. lookup_or 0 kv.0 got == kv.1) want
    && all (λ kv. kv.1 == 0 || lookup_or 0 kv.0 want == kv.1) got

-- The rounds counted so far for each cycle, and the counters that the attempts amount to.
pub record Tally : Type 0 where
  pub rounds : List (CycleKey × ℕ)
  pub want : CycleCounters
  pub final_reviews : ℕ

-- One operation that consumed a counter: its round is the next of its cycle.
unfoldable pub tally_operation :
    CycleKey → ℕ → Bool → (CycleCounters → CycleCounters) → ℕ → Tally → Option Tally
tally_operation key round current count final t =
    let n = inc (lookup_or 0 key t.rounds) in
    if key.cycle == 0
    then none
    else if round != n
    then none
    else some (record {
      rounds = insert key n t.rounds;
      want = if current then count t.want else t.want;
      final_reviews = if current then final else t.final_reviews;
    })

unfoldable pub tally_assignment_operation : CycleCounters → Operation → Tally → Option Tally
unfolding tally_operation
tally_assignment_operation c o t =
    if is_empty o.attempts || o.counter == CycleCounter.no_counter
    then some t
    else tally_operation
        (record { counter = o.counter; episode = o.episode; cycle = o.semantic_cycle })
        (first_round o.attempts)
        (o.semantic_cycle == current_cycle (cycle_generation c o.counter o.episode))
        (λ w. count_cycle w o.counter o.episode) t.final_reviews t

unfoldable pub tally_run_operation : Run → Operation → Tally → Option Tally
unfolding tally_operation
tally_run_operation r o t = if is_empty o.attempts then some t else elim o.counter [
  | CycleCounter.final_review ↦
      tally_operation (record { counter = o.counter; episode = ""; cycle = o.semantic_cycle })
        (first_round o.attempts) (o.semantic_cycle == current_cycle r.final_review_cycle) (λ w. w)
        (inc t.final_reviews) t
  | CycleCounter.explorer ↦
      tally_operation
        (record { counter = o.counter; episode = o.episode; cycle = o.semantic_cycle })
        (first_round o.attempts)
        (o.semantic_cycle == current_cycle (lookup_or 0 o.episode r.run_explorer_cycles))
        (λ w. count_cycle w o.counter o.episode) t.final_reviews t
  | _ ↦ some t
]

unfoldable pub tally_all :
    (Operation → Tally → Option Tally) → List Operation → Tally → Option Tally
tally_all step [] t = some t
tally_all step (o ∷ rest) t = elim (step o t) [ none ↦ none | some t' ↦ tally_all step rest t' ]

abbrev pub no_tally : Tally
no_tally = record { rounds = []; want = no_counters; final_reviews = 0 }

unfoldable pub run_counters_valid : Run → Bool
run_counters_valid r = elim (tally_all (tally_run_operation r) r.run_operations no_tally) [
  | none ↦ false
  | some t ↦
      r.final_review_rounds == t.final_reviews && maps_equal r.run_explorer_counters t.want.explorer
]

unfoldable pub assignment_counters_valid : Assignment → Bool
assignment_counters_valid a =
    elim (tally_all (tally_assignment_operation a.counters) a.operations no_tally) [
      | none ↦ false
      | some t ↦
          a.counters.assignment_review == t.want.assignment_review
          && a.counters.mandatory_checks == t.want.mandatory_checks
          && a.counters.checks_requested == t.want.checks_requested
          && a.counters.brief_refinement == t.want.brief_refinement
          && maps_equal a.counters.explorer t.want.explorer
    ]

-- `validateCounters` returns nil.
unfoldable pub counters_valid : Run → Bool
counters_valid r = run_counters_valid r && all assignment_counters_valid r.assignments
