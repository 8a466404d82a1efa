-- ===== src/Checks/Concurrent.antt =====
-- Two executions whose updates of the metrics alternate.
use ave_contract_sdk.Base.{true, false, ℕ, ◌≡◌, some, none, List, [], ◌∷◌}
use ave_contract_sdk.Base.Text.{String}
use ave_contract_sdk.Runtime.Config.{limits_of_spec}
use ave_contract_sdk.Runtime.Metrics.{ContractMetrics}
use ave_contract_sdk.Runtime.Metrics.Updates.{
  Update, Family, Merge, done, from_first, from_others, Interleaved, no_threads, thread, update_all,
  reading,
}
use ave_contract_sdk.Runtime.Execute.Session.{Request, execute_all}
use ave_contract_sdk.Runtime.Execute.Concurrent.{updates_of, execute_all-Interleaved}
use ave_contract_sdk.Checks.Host.{small_wire, byte_json, counting, no_metrics}
use ave_contract_sdk.Checks.Guest.{small_engine}

abbrev accepted_event : Request (Unit {0}) ℕ ℕ
accepted_event = record {
  compiled = tt;
  state = 2;
  init_state = 0;
  event = 5;
  is_owner = true;
  elapsed = 1;
}

abbrev later_event : Request (Unit {0}) ℕ ℕ
later_event = record {
  compiled = tt;
  state = 7;
  init_state = 0;
  event = 4;
  is_owner = false;
  elapsed = 2;
}

abbrev alternate : {A : Type 0} → List A → List A → List A
alternate [] ys = ys
alternate (x ∷ xs) [] = x ∷ xs
alternate (x ∷ xs) (y ∷ ys) = x ∷ y ∷ alternate xs ys

others-Merge : {A : Type 0} (ys : List A) → Merge [] ys ys
others-Merge [] = done
others-Merge (y ∷ ys) = from_others (others-Merge ys)

first-Merge : {A : Type 0} (xs : List A) → Merge xs [] xs
first-Merge [] = done
first-Merge (x ∷ xs) = from_first (first-Merge xs)

alternate-Merge : {A : Type 0} (xs ys : List A) → Merge xs ys (alternate xs ys)
alternate-Merge [] ys = others-Merge ys
alternate-Merge (x ∷ xs) [] = first-Merge (x ∷ xs)
alternate-Merge (x ∷ xs) (y ∷ ys) = from_first (from_others (alternate-Merge xs ys))

abbrev steps : Request (Unit {0}) ℕ ℕ → List (Update ℕ)
steps = updates_of counting small_wire byte_json small_engine (limits_of_spec none)

abbrev alternating : List (Update ℕ)
alternating = alternate (steps accepted_event) (steps later_event)

alternating-Interleaved : Interleaved (steps accepted_event ∷ steps later_event ∷ []) alternating
alternating-Interleaved =
    thread (thread no_threads (first-Merge (steps later_event)))
      (alternate-Merge (steps accepted_event) (steps later_event))

execute_all-Interleaved_example :
    (after : ContractMetrics counting) × ((execute_all counting small_wire byte_json small_engine
        (limits_of_spec none)
        (accepted_event ∷ later_event ∷ [])
        (some no_metrics)).1
      ≡ some after)
    × ((f : Family) (k : String)
        → reading counting f k (update_all counting alternating no_metrics)
          ≡ reading counting f k after)
execute_all-Interleaved_example =
    execute_all-Interleaved counting small_wire byte_json small_engine (limits_of_spec none)
      (accepted_event ∷ later_event ∷ []) alternating no_metrics alternating-Interleaved
