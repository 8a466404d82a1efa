-- ===== src/Checks/Host.antt =====
-- Concrete instances of the crates that the sources use, small enough to run.

use ave_contract_sdk.Base.{
  ℕ, ◌+◌, ◌≤◌, ◌<◌, ◌≡◌, refl, true, false, Option, none, some, List, [], ◌∷◌, arith, leb, ltb,
  length, drop, take_all, slice, splice, overwrite, if◌then◌else◌, Bool-cases, inl, inr,
  slice-splice, length-splice,
}
use mathlib.Core.List.Perm
use mathlib.Core.Path.{subst}
use mathlib.Core.Option.{some-injective}
use text.Mathlib.TextEquality.{eq_iff}
use ave_contract_sdk.Base.Machine.{ℤ, pos, as_usize}
use ave_contract_sdk.Base.Text.{String, ◌=s=◌}
use ave_contract_sdk.Base.Result.{Result, ok, err}
use ave_contract_sdk.Sdk.Wire.{ContractResultData, Wire, Json}
use ave_contract_sdk.Runtime.Config.{max_memory_bytes}
use ave_contract_sdk.Runtime.Imports.{SetOrder}
use ave_contract_sdk.Runtime.Linker.{LinearMemory}
use ave_contract_sdk.Runtime.Linker.Guest.{GuestHeap}
use ave_contract_sdk.Runtime.Metrics.{Prometheus, ContractMetrics}

abbrev read_bytes_of : ℕ → ℕ → List ℕ → Option (List ℕ)
read_bytes_of a n mem = if leb (a + n) (length mem) then some (slice a n mem) else none

abbrev write_bytes_of : ℕ → List ℕ → List ℕ → Option (List ℕ)
write_bytes_of a bytes mem =
    if leb (a + length bytes) (length mem) then some (splice a bytes mem) else none

pub splice_read :
    (a n : ℕ) (old bytes mem : List ℕ)
    → read_bytes_of a n mem ≡ some old
    → length bytes ≤ n
    → (mem' : List ℕ) × (write_bytes_of a bytes mem ≡ some mem')
      × (read_bytes_of a n mem' ≡ some (overwrite bytes old))
splice_read a n old bytes mem r h = (
  splice a bytes mem,
  ground (arith, r, h),
  ground (arith, r, length-splice a bytes mem, slice-splice a n 0 bytes mem),
)

-- Linear memory that ends with its vector.
abbrev pub byte_memory : LinearMemory
byte_memory = record {
  Mem = List ℕ;
  read = read_bytes_of;
  write = write_bytes_of;
  write-read = splice_read;
}

pub whole : (v : List ℕ) → read_bytes_of 0 (length v) v ≡ some v
whole v = ground (arith, take_all v)

abbrev place_first : List ℕ → List ℕ → Option (ℤ × List ℕ)
place_first v mem = if leb (length v) max_memory_bytes then some (pos 0, v) else none

pub place_first-reads :
    (v mem mem' : List ℕ) (address : ℤ)
    → place_first v mem ≡ some (address, mem')
    → read_bytes_of (as_usize address) (length v) mem' ≡ some v
place_first-reads v mem mem' address h = elim (Bool-cases (leb (length v) max_memory_bytes)) [
  | inl fits ↦
      let same : ◌≡◌ {A = ℤ × List ℕ} (pos 0, v) (address, mem') =
        some-injective _ _ (rw fits at h) in
      subst (λ (t : ℤ × List ℕ). read_bytes_of (as_usize t.0) (length v) t.1 ≡ some v) same
        (whole v)
  | inr over ↦ ground (arith, over, h)
]

pub place_first-room :
    (v mem : List ℕ)
    → length v ≤ max_memory_bytes
    → (address : ℤ) × (mem' : List ℕ) × (place_first v mem ≡ some (address, mem'))
place_first-room v mem h = (pos 0, v, ground (arith, h))

-- A heap of one vector, in a linear memory of 32 MiB.
abbrev pub one_vector : GuestHeap byte_memory
one_vector = record {
  capacity = max_memory_bytes;
  place = place_first;
  read-place = place_first-reads;
  has_room = place_first-room;
}

-- A set that keeps its order.
abbrev pub own_order : SetOrder
own_order = record { into_iter = λ names. names; into_iter-Perm = λ names. Perm.refl names }

abbrev rejected : String → ContractResultData
rejected msg = record { final_state = []; success = false; error = msg }

abbrev encode_small : ContractResultData → Result String (List ℕ)
encode_small r =
    if r.error =s= "" then ok ((if r.success then 1 else 0) ∷ r.final_state) else err "no text"

abbrev decode_small : List ℕ → Result String ContractResultData
decode_small [] = err "no byte"
decode_small (b ∷ bs) = ok (record { final_state = bs; success = ltb 0 b; error = "" })

pub decode-encode :
    (r : ContractResultData) (bs : List ℕ) → encode_small r ≡ ok bs → decode_small bs ≡ ok r
decode-encode r bs h = elim (Bool-cases (r.error =s= "")) [
  | inl e ↦ ground (arith, (eq_iff r.error "").0 e, h)
  | inr e ↦ ground (arith, e, h)
]

pub encode-pos : (r : ContractResultData) (bs : List ℕ) → encode_small r ≡ ok bs → 0 < length bs
encode-pos r bs h = ground (arith, h)

abbrev pub encode_check : Option String → Result String (List ℕ)
encode_check none = ok (1 ∷ [])
encode_check (some msg) = err msg

abbrev pub decode_check : List ℕ → Result String (Option String)
decode_check [] = err "no check"
decode_check (b ∷ bs) = ok none

pub decode-encode_check :
    (c : Option String) (bs : List ℕ) → encode_check c ≡ ok bs → decode_check bs ≡ ok c
decode-encode_check none bs h = ground (arith, h)
decode-encode_check (some msg) bs h = ground (arith, h)

pub encode_check-pos : (c : Option String) (bs : List ℕ) → encode_check c ≡ ok bs → 0 < length bs
encode_check-pos none bs h = ground (arith, h)
encode_check-pos (some msg) bs h = ground (arith, h)

abbrev pub small_wire : Wire
small_wire = record {
  decode_data = λ bs. ok (drop 4 bs);
  decode_data_frame = λ d h. refl;
  result_error = rejected;
  result_error-success = λ msg. refl;
  result_error-error = λ msg. refl;
  encode_result = encode_small;
  decode_result = decode_small;
  decode_result-encode_result = decode-encode;
  encode_result-pos = encode-pos;
  ContractInitCheckData = Option String;
  init_ok = none;
  init_error = λ msg. some msg;
  init_success = λ c. elim c [ none ↦ true | some msg ↦ false ];
  init_message = λ c. elim c [ none ↦ "" | some msg ↦ msg ];
  init_ok-success = refl;
  init_error-success = λ msg. refl;
  init_error-message = λ msg. refl;
  encode_init = encode_check;
  decode_init = decode_check;
  decode_init-encode_init = decode-encode_check;
  encode_init-pos = encode_check-pos;
}

abbrev pub byte_of : List ℕ → Result String ℕ
byte_of (n ∷ []) = ok n
byte_of _ = err "no byte"

-- A number as its byte.
abbrev pub byte_json : Json ℕ
byte_json = record { to_vec = λ n. ok (n ∷ []); from_slice = byte_of }

abbrev pub counting : Prometheus
counting = record {
  Counters = String → ℕ;
  count = λ c k. c k;
  no_counts = λ k. 0;
  count-no_counts = λ k. refl;
  inc = λ l c k. if l =s= k then c k + 1 else c k;
  count-inc = λ c l k. refl;
  Float = ℕ;
  as_f64 = λ n. n;
  literal = λ n k. n;
  Histograms = String → ℕ;
  no_observations = λ bounds k. 0;
  observe = λ l x h k. if l =s= k then h k + 1 else h k;
  observations = λ h k. h k;
  observations-no_observations = λ bounds k. refl;
  observations-observe = λ h l x k. refl;
  Registry = List String;
  register_counter = λ name help c r. name ∷ r;
  register_histogram = λ name help h r. name ∷ r;
}

abbrev pub no_metrics : ContractMetrics counting
no_metrics = record {
  contract_executions = λ k. 0;
  contract_execution_seconds = λ k. 0;
  contract_fuel_consumed = λ k. 0;
  contract_fuel_exhausted_total = λ k. 0;
  contract_memory_peak_bytes = λ k. 0;
}
