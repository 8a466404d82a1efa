-- ===== src/Runtime/Metrics.antt =====
-- src/runtime/metrics.rs: the counters and histograms of the runtime, over prometheus_client.
pub mod Updates
use ave_contract_sdk.Base.{List, [], ◌∷◌, ℕ, ◌+◌, ◌≡◌, if◌then◌else◌}
use ave_contract_sdk.Base.Text.{String, ◌=s=◌}

-- `Family<ContractExecutionLabels, Counter>` and `Family<ContractExecutionLabels, Histogram>`. The
-- label set is the one label `result`. `get_or_create` makes a counter of 0, and `inc` adds 1.
pub record Prometheus : Type 1 where
  pub Counters : Type 0
  pub count : Counters → String → ℕ
  pub no_counts : Counters
  pub count-no_counts : (k : String) → count no_counts k ≡ 0
  pub inc : String → Counters → Counters
  pub count-inc :
      (c : Counters) (l k : String)
      → count (inc l c) k ≡ (if l =s= k then count c k + 1 else count c k)
  pub Float : Type 0
  pub as_f64 : ℕ → Float
  -- The `f64` that a literal of these digits, the last `k` of them behind the point, denotes.
  pub literal : (digits k : ℕ) → Float
  -- `Family::new_with_constructor`, of histograms with these bounds
  pub Histograms : Type 0
  pub no_observations : List Float → Histograms
  pub observe : String → Float → Histograms → Histograms
  -- How many observations the histogram of a label has.
  pub observations : Histograms → String → ℕ
  pub observations-no_observations :
      (bounds : List Float) (k : String) → observations (no_observations bounds) k ≡ 0
  pub observations-observe :
      (h : Histograms) (l : String) (x : Float) (k : String)
      → observations (observe l x h) k
        ≡ (if l =s= k then observations h k + 1 else observations h k)
  -- `Registry::register`, of a name, a help text and a family
  pub Registry : Type 0
  pub register_counter : String → String → Counters → Registry → Registry
  pub register_histogram : String → String → Histograms → Registry → Registry

pub record ContractMetrics (p : Prometheus) : Type 0 where
  pub contract_executions : p.Counters
  pub contract_execution_seconds : p.Histograms
  pub contract_fuel_consumed : p.Histograms
  pub contract_fuel_exhausted_total : p.Counters
  pub contract_memory_peak_bytes : p.Histograms

module _ (p : Prometheus) where
  abbrev pub seconds : List p.Float
  seconds =
      p.literal 5 4
      ∷ p.literal 10 4
      ∷ p.literal 25 4
      ∷ p.literal 5 3
      ∷ p.literal 1 2
      ∷ p.literal 25 3
      ∷ p.literal 5 2
      ∷ p.literal 1 1
      ∷ p.literal 25 2
      ∷ p.literal 5 1
      ∷ p.literal 10 1
      ∷ p.literal 20 1
      ∷ p.literal 50 1
      ∷ []

  abbrev pub fuel_amounts : List p.Float
  fuel_amounts =
      p.literal 10_000 1
      ∷ p.literal 100_000 1
      ∷ p.literal 1_000_000 1
      ∷ p.literal 5_000_000 1
      ∷ p.literal 10_000_000 1
      ∷ p.literal 25_000_000 1
      ∷ p.literal 50_000_000 1
      ∷ p.literal 75_000_000 1
      ∷ p.literal 100_000_000 1
      ∷ []

  abbrev pub byte_amounts : List p.Float
  byte_amounts =
      p.literal 40_960 1
      ∷ p.literal 163_840 1
      ∷ p.literal 655_360 1
      ∷ p.literal 2_621_440 1
      ∷ p.literal 10_485_760 1
      ∷ p.literal 41_943_040 1
      ∷ p.literal 167_772_160 1
      ∷ []

  -- `ContractMetrics::new`, and `default`
  unfoldable pub new : ContractMetrics p
  new = record {
    contract_executions = p.no_counts;
    contract_execution_seconds = p.no_observations seconds;
    contract_fuel_consumed = p.no_observations fuel_amounts;
    contract_fuel_exhausted_total = p.no_counts;
    contract_memory_peak_bytes = p.no_observations byte_amounts;
  }

  unfoldable pub register_into : ContractMetrics p → p.Registry → p.Registry
  register_into m registry =
      let executions =
        p.register_counter "ave_contract_sdk_contract_executions"
          "Contract execution attempts labeled by result." m.contract_executions registry in
      let durations =
        p.register_histogram "ave_contract_sdk_contract_execution_seconds"
          "Contract execution duration labeled by result." m.contract_execution_seconds
          executions in
      let fuel =
        p.register_histogram "ave_contract_sdk_contract_fuel_consumed"
          "Contract fuel consumed per execution labeled by result." m.contract_fuel_consumed
          durations in
      let exhausted =
        p.register_counter "ave_contract_sdk_contract_fuel_exhausted"
          "Total number of contract executions that ran out of fuel."
          m.contract_fuel_exhausted_total fuel in
      p.register_histogram "ave_contract_sdk_contract_memory_peak_bytes"
        "Peak WASM linear memory used per contract execution labeled by result."
        m.contract_memory_peak_bytes exhausted

  unfoldable pub observe_contract_execution :
      String → p.Float → ContractMetrics p → ContractMetrics p
  observe_contract_execution result duration m = record m {
    contract_executions = p.inc result m.contract_executions;
    contract_execution_seconds = p.observe result duration m.contract_execution_seconds;
  }

  unfoldable pub observe_contract_fuel_consumed : String → ℕ → ContractMetrics p → ContractMetrics p
  observe_contract_fuel_consumed result fuel m = record m {
    contract_fuel_consumed = p.observe result (p.as_f64 fuel) m.contract_fuel_consumed;
  }

  unfoldable pub observe_contract_fuel_exhausted : ContractMetrics p → ContractMetrics p
  observe_contract_fuel_exhausted m = record m {
    contract_fuel_exhausted_total = p.inc "error" m.contract_fuel_exhausted_total;
  }

  unfoldable pub observe_contract_memory_peak : String → ℕ → ContractMetrics p → ContractMetrics p
  observe_contract_memory_peak result bytes m = record m {
    contract_memory_peak_bytes = p.observe result (p.as_f64 bytes) m.contract_memory_peak_bytes;
  }
