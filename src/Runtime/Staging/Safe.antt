-- ===== src/Runtime/Staging/Safe.antt =====
-- src/runtime/contract_runtime.rs: the staging of a contract's arguments keeps the memory manager
-- valid, whether it succeeds or not.
use ave_contract_sdk.Base.{ℕ, ◌+◌, ◌^◌, List, length, leb, ltb, Bool-cases, Option-cases, inl, inr}
use ave_contract_sdk.Base.Result.{Result, Result-cases}
use ave_contract_sdk.Base.Exec.{Exec, ◌>>=◌, lift, map_err}
use ave_contract_sdk.Sdk.Wire.{Json, to_le_bytes}
use ave_contract_sdk.Runtime.Config.{WasmLimits}
use ave_contract_sdk.Runtime.Memory.{MemoryManager, from_limits, alloc, write_bytes_at}
use ave_contract_sdk.Runtime.Memory.Allocs.{get}
use ave_contract_sdk.Runtime.Memory.Inv.{IsValid}
use ave_contract_sdk.Runtime.Memory.Writes.{write_bytes_at_tracked, write_untracked}
use ave_contract_sdk.Runtime.Linker.Safe.{
  Keeps, Keeps-refl, Keeps-trans, alloc-Keeps, written-Keeps,
}
use ave_contract_sdk.Runtime.Staging.{
  write_contract_data, generate_context, generate_execution_context, payload_len, allocation_failed,
  value_to_contract_data,
}

-- A call that leaves a valid successor of every valid manager.
abbrev pub AlwaysKeeps : {E A : Type 0} → Exec E MemoryManager A → Type 0
AlwaysKeeps call = (m : MemoryManager) → IsValid m → Keeps m (call m).1

module _ {E A B : Type 0} where
  bind-AlwaysKeeps :
      (first : Exec E MemoryManager A) (rest : A → Exec E MemoryManager B)
      → AlwaysKeeps first
      → ((a : A) → AlwaysKeeps (rest a))
      → AlwaysKeeps (first >>= rest)
  bind-AlwaysKeeps first rest f g m v = elim (Result-cases (first m).0) [
    | inl (a, e) ↦
        let k = f m v in
        rw e (Keeps-trans m (first m).1 (rest a (first m).1).1 k (g a (first m).1 k.valid))
    | inr (x, e) ↦ rw e (f m v)
  ]

lift-AlwaysKeeps : {E A : Type 0} (r : Result E A) → AlwaysKeeps (lift r)
lift-AlwaysKeeps r m v = Keeps-refl m v

write_bytes_at-AlwaysKeeps : (p off : ℕ) (bytes : List ℕ) → AlwaysKeeps (write_bytes_at p off bytes)
write_bytes_at-AlwaysKeeps p off bytes m v = elim (Option-cases (get p m.map)) [
  | inl e ↦ rw ((write_untracked p off bytes m e).0) (Keeps-refl m v)
  | inr (len, e) ↦ elim (Bool-cases (leb (off + length bytes) len)) [
    | inl b ↦
        rw (write_bytes_at_tracked p off len bytes m v e, b) (written-Keeps (p + off) bytes m v)
    | inr b ↦ elim (Bool-cases (ltb (p + off + length bytes) (2 ^ 64))) [
      | inl c ↦ rw (write_bytes_at_tracked p off len bytes m v e, b, c) (Keeps-refl m v)
      | inr c ↦ rw (write_bytes_at_tracked p off len bytes m v e, b, c) (Keeps-refl m v)
    ]
  ]
]

write_contract_data-AlwaysKeeps : (payload : List ℕ) → AlwaysKeeps (write_contract_data payload)
unfolding write_contract_data
write_contract_data-AlwaysKeeps payload =
    bind-AlwaysKeeps (lift (payload_len payload)) _ (lift-AlwaysKeeps (payload_len payload)) (λ len.
      bind-AlwaysKeeps (map_err allocation_failed (alloc (4 + length payload))) _
        (alloc-Keeps (4 + length payload))
        (λ ptr.
          bind-AlwaysKeeps (map_err allocation_failed (write_bytes_at ptr 0 (to_le_bytes len))) _
            (write_bytes_at-AlwaysKeeps ptr 0 (to_le_bytes len))
            (λ u.
              bind-AlwaysKeeps (map_err allocation_failed (write_bytes_at ptr 4 payload)) _
                (write_bytes_at-AlwaysKeeps ptr 4 payload) (λ u. Keeps-refl))))

module _ {Value : Type 0} (value_json : Json Value) where
  -- The manager that a contract is started on, or that is left when it cannot be.
  pub generate_execution_context-Keeps :
      (state init_state event : Value) (limits : WasmLimits)
      → IsValid (from_limits limits)
      → Keeps
          (from_limits limits)
          (generate_execution_context value_json state init_state event limits).1
  unfolding generate_execution_context
  generate_execution_context-Keeps state init_state event limits =
      let staged = λ (d : List ℕ). write_contract_data-AlwaysKeeps d in
      bind-AlwaysKeeps (lift (value_to_contract_data value_json state)) _ (λ m v. Keeps-refl m v)
        (λ a. bind-AlwaysKeeps (write_contract_data a) _ (staged a) (λ p.
          bind-AlwaysKeeps (lift (value_to_contract_data value_json init_state)) _
            (λ m v. Keeps-refl m v)
            (λ b. bind-AlwaysKeeps (write_contract_data b) _ (staged b) (λ q.
              bind-AlwaysKeeps (lift (value_to_contract_data value_json event)) _
                (λ m v. Keeps-refl m v)
                (λ d.
                  bind-AlwaysKeeps (write_contract_data d) _ (staged d)
                    (λ r m v. Keeps-refl m v))))))
        (from_limits limits)

  pub generate_context-Keeps :
      (state : Value) (limits : WasmLimits)
      → IsValid (from_limits limits)
      → Keeps (from_limits limits) (generate_context value_json state limits).1
  unfolding generate_context
  generate_context-Keeps state limits =
      bind-AlwaysKeeps (lift (value_to_contract_data value_json state)) _ (λ m v. Keeps-refl m v)
        (λ payload. write_contract_data-AlwaysKeeps payload) (from_limits limits)
