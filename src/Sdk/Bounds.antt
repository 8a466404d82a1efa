-- ===== src/Sdk/Bounds.antt =====
-- src/lib.rs: which lengths a contract takes from its host.
use ave_contract_sdk.Base.{ℕ, ◌≤◌, ◌≡◌, ◌↔◌, arith}
use ave_contract_sdk.Base.Machine.{ℤ, pos, negsuc}
use ave_contract_sdk.Base.Result.{ok}
use ave_contract_sdk.Sdk.Transfer.{validate_host_len, max_data_size}

-- A contract makes a buffer exactly for the lengths from 0 to `MAX_DATA_SIZE`, and of that length.
pub validate_host_len_iff :
    (len : ℤ) (n : ℕ) → (validate_host_len len ≡ ok n) ↔ ((len ≡ pos n) × (n ≤ max_data_size))
unfolding validate_host_len
validate_host_len_iff (pos k) n = (λ h. ground (arith, h), λ h. ground (arith, h))
validate_host_len_iff (negsuc k) n = (λ h. ground (arith, h), λ h. ground (arith, h))
