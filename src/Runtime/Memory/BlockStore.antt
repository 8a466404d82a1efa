-- ===== src/Runtime/Memory/BlockStore.antt =====
-- What the host's memory promises to its callers: separate blocks of bytes, each at its pointer,
-- that no operation on another block can change. It knows no shared vector and no table of sizes.

use ave_contract_sdk.Base.{
  ℕ, ◌+◌, ◌^◌, Option, none, some, List, [], ◌∷◌, ltb, leb, ◌==◌, ◌&&◌, if◌then◌else◌, length,
  replicate, splice,
}
use ave_contract_sdk.Base.Machine.{ℤ, pos, negsuc}
use ave_contract_sdk.Runtime.Error.{
  ContractError, invalid_pointer, write_out_of_bounds, allocation_too_large, total_memory_exceeded,
}

pub record BlockStore : Type 0 where
  pub blocks : ℕ → Option (List ℕ)
  pub top : ℕ
  pub max_single : ℕ
  pub max_total : ℕ

-- The calls on the memory, by the host and by a guest, and what a caller sees of each.
pub data Call : Type 0 where
  alloc : ℕ → Call
  read_data : ℕ → Call
  write_bytes : ℕ → List ℕ → Call
  write_bytes_at : ℕ → ℕ → List ℕ → Call
  get_pointer_len : ℕ → Call

pub data Reply : Type 0 where
  pointer : ℕ → Reply
  bytes : List ℕ → Reply
  done : Reply
  number : ℤ → Reply
  failed : ContractError → Reply

abbrev pub add_block : ℕ → BlockStore → BlockStore
add_block len s = record s {
  blocks = λ q. if q == s.top && ltb 0 len then some (replicate len 0) else s.blocks q;
  top = s.top + len;
}

abbrev pub set_block : ℕ → List ℕ → BlockStore → BlockStore
set_block p b s = record s { blocks = λ q. if q == p then some b else s.blocks q }

-- A write of `bs` at `off` into the block `b` at `p`.
abbrev pub write_block : ℕ → ℕ → List ℕ → List ℕ → BlockStore → Reply × BlockStore
write_block p off bs b s =
    if leb (off + length bs) (length b)
    then (done, set_block p (splice off bs b) s)
    else if ltb (p + off + length bs) (2 ^ 64)
    then (failed (write_out_of_bounds (off + length bs) (length b)), s)
    else (failed (invalid_pointer p), s)

unfoldable pub step : Call → BlockStore → Reply × BlockStore
step (alloc len) s =
    if ltb s.max_single len
    then (failed (allocation_too_large len s.max_single), s)
    else if ltb s.max_total (s.top + len)
    then (failed (total_memory_exceeded (s.top + len) s.max_total), s)
    else (pointer s.top, add_block len s)
step (read_data p) s =
    (elim (s.blocks p) [ none ↦ failed (invalid_pointer p) | some b ↦ bytes b ], s)
step (write_bytes p bs) s = elim (s.blocks p) [
  | none ↦ (failed (invalid_pointer p), s)
  | some b ↦
      if leb (length bs) (length b)
      then (done, set_block p (splice 0 bs b) s)
      else (failed (write_out_of_bounds (length bs) (length b)), s)
]
step (write_bytes_at p off bs) s = elim (s.blocks p) [
  | none ↦ (failed (invalid_pointer p), s)
  | some b ↦ write_block p off bs b s
]
step (get_pointer_len p) s =
    (elim (s.blocks p) [ none ↦ number (negsuc 0) | some b ↦ number (pos (length b)) ], s)

unfoldable pub run : List Call → BlockStore → List Reply
unfolding step
run [] s = []
run (c ∷ cs) s = (step c s).0 ∷ run cs (step c s).1
