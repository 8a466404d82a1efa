-- ===== src/Sdk/Wire.antt =====
-- The crates ave_common, borsh and serde_json, which the sources call: a record of the operations
-- that they use, with the documented behaviour that they rely on.
use ave_contract_sdk.Base.{
  ℕ, ◌/◌, ◌%◌, ◌^◌, ◌<◌, ◌≡◌, Bool, true, false, List, [], ◌∷◌, ◌++◌, length,
}
use ave_contract_sdk.Base.Text.{String}
use ave_contract_sdk.Base.Result.{Result, ok}

-- `ave_common::ContractResultData`, by the fields that the sources give it. `ContractData` is a
-- vector of bytes.
pub record ContractResultData : Type 0 where
  pub final_state : List ℕ
  pub success : Bool
  pub error : String

-- `u32::to_le_bytes`
abbrev pub to_le_bytes : ℕ → List ℕ
to_le_bytes n = n % 256 ∷ n / 256 % 256 ∷ n / 65_536 % 256 ∷ n / 16_777_216 % 256 ∷ []

-- The borsh form of a vector of bytes: its length, as a little-endian `u32`, and the bytes.
abbrev pub frame : List ℕ → List ℕ
frame d = to_le_bytes (length d) ++ d

pub record Wire : Type 1 where
  -- `ContractData::try_from_slice`
  pub decode_data : List ℕ → Result String (List ℕ)
  pub decode_data_frame : (d : List ℕ) → length d < 2 ^ 32 → decode_data (frame d) ≡ ok d
  -- `ContractResultData::error`
  pub result_error : String → ContractResultData
  pub result_error-success : (msg : String) → (result_error msg).success ≡ false
  pub result_error-error : (msg : String) → (result_error msg).error ≡ msg
  -- borsh of `ContractResultData`
  pub encode_result : ContractResultData → Result String (List ℕ)
  pub decode_result : List ℕ → Result String ContractResultData
  pub decode_result-encode_result :
      (r : ContractResultData) (bs : List ℕ) → encode_result r ≡ ok bs → decode_result bs ≡ ok r
  -- An encoding holds at least the byte of the Boolean.
  pub encode_result-pos :
      (r : ContractResultData) (bs : List ℕ) → encode_result r ≡ ok bs → 0 < length bs
  -- `ContractInitCheckData` and its borsh
  pub ContractInitCheckData : Type 0
  pub init_ok : ContractInitCheckData
  pub init_error : String → ContractInitCheckData
  pub init_success : ContractInitCheckData → Bool
  pub init_message : ContractInitCheckData → String
  pub init_ok-success : init_success init_ok ≡ true
  pub init_error-success : (msg : String) → init_success (init_error msg) ≡ false
  pub init_error-message : (msg : String) → init_message (init_error msg) ≡ msg
  pub encode_init : ContractInitCheckData → Result String (List ℕ)
  pub decode_init : List ℕ → Result String ContractInitCheckData
  pub decode_init-encode_init :
      (c : ContractInitCheckData) (bs : List ℕ) → encode_init c ≡ ok bs → decode_init bs ≡ ok c
  pub encode_init-pos :
      (c : ContractInitCheckData) (bs : List ℕ) → encode_init c ≡ ok bs → 0 < length bs

-- `serde_json::to_vec` and `serde_json::from_slice` at one type.
pub record Json (T : Type 0) : Type 0 where
  pub to_vec : T → Result String (List ℕ)
  pub from_slice : List ℕ → Result String T
