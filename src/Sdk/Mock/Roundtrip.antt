-- ===== src/Sdk/Mock/Roundtrip.antt =====
-- src/tests.rs, `prop_tests`: what a payload of any length gives across the mock host.
use ave_contract_sdk.Base.{
  ℕ, ◌^◌, ◌<◌, ◌≡◌, refl, sym, List, length, replicate, length-replicate, overwrite_all, leb, arith,
  if◌then◌else◌,
}
use ave_contract_sdk.Base.Machine.{pos}
use ave_contract_sdk.Base.Result.{Result, ok, err}
use ave_contract_sdk.Sdk.Error.{Error, memory_limit_exceeded}
use ave_contract_sdk.Sdk.Extern.{Stop, error}
use ave_contract_sdk.Sdk.Transfer.{
  max_data_size, get_from_context, validate_host_len, read_host_bytes,
}
use ave_contract_sdk.Sdk.Mock.{
  Panic, MockHost, mock, hold, reset, take_id, store_data, pointer_len, read_bytes_into_vec,
}

-- What `get_from_context` is meant to give for a payload.
abbrev pub received : List ℕ → Result (Stop Panic Error) (List ℕ)
received payload =
    if leb (length payload) max_data_size
    then ok payload
    else err (error (memory_limit_exceeded (length payload) max_data_size))

-- On a mock host that has just been reset, a payload of fewer than 2^31 bytes is stored at the pointer
-- 1000, and is read from there byte by byte the same if it is within MAX_DATA_SIZE; a longer one is
-- refused with its length, before a buffer is made. The reading changes nothing.
pub get_from_context-store_data :
    (s : MockHost) (payload : List ℕ)
    → length payload < 2 ^ 31
    → let (stored, s') = store_data payload (hold s) in
      (stored ≡ ok (pos 1000)) × (get_from_context mock (pos 1000) s' ≡ (received payload, s'))
unfolding hold reset store_data take_id get_from_context validate_host_len read_host_bytes
    pointer_len read_bytes_into_vec
get_from_context-store_data s payload small = (
  refl,
  ground (
    arith,
    small,
    length-replicate {A = ℕ} (length payload) 0,
    overwrite_all payload (replicate (length payload) 0)
        (sym (length-replicate {A = ℕ} (length payload) 0)),
  ),
)
