-- ===== src/Bridge/Service.antt =====
-- What a contract needs of its host: payloads that it can read, and room for one result. The real
-- host and the mock of src/externf.rs both provide it.
use ave_contract_sdk.Base.{ℕ, ◌<◌, ◌^◌, ◌≡◌, List, arith, length}
use ave_contract_sdk.Base.Machine.{ℤ}
use ave_contract_sdk.Base.Text.{String, ◌<>◌}
use ave_contract_sdk.Base.Result.{Result, ok, map_err as map_failure}
use ave_contract_sdk.Sdk.Wire.{Wire, Json, frame}
use ave_contract_sdk.Sdk.Extern.{Extern, Stop, failing}
use ave_contract_sdk.Sdk.Transfer.{get_from_context, read_and_parse, deserialize, store}

pub record Service (x : Extern) : Type 1 where
  -- A payload is held at a pointer. Reads leave a state `Reads` that holds as much.
  pub Holds : ℤ → List ℕ → x.State → Type 0
  pub Reads : x.State → x.State → Type 0
  -- There is room for these bytes; once stored, they stand at this pointer.
  pub Room : List ℕ → x.State → Type 0
  pub Stores : List ℕ → x.State → ℕ → x.State → Type 0
  pub Reads-trans : (s t u : x.State) → Reads s t → Reads t u → Reads s u
  pub Reads-Holds : (s t : x.State) (p : ℤ) (d : List ℕ) → Reads s t → Holds p d s → Holds p d t
  pub Reads-Room : (s t : x.State) (out : List ℕ) → Reads s t → Room out s → Room out t
  pub Reads-Stores :
      (s t u : x.State) (out : List ℕ) (ptr : ℕ)
      → Reads s t
      → Stores out t ptr u
      → Stores out s ptr u
  pub Holds-small : (p : ℤ) (d : List ℕ) (s : x.State) → Holds p d s → length d < 2 ^ 32
  pub read :
      (p : ℤ) (d : List ℕ) (s : x.State)
      → Holds p d s
      → (s' : x.State) × (get_from_context x p s ≡ (ok (frame d), s')) × Reads s s'
  pub put :
      (out : List ℕ) (s : x.State)
      → 0 < length out
      → Room out s
      → (ptr : ℕ) × (s' : x.State) × (store x (ok out) s ≡ (ok ptr, s')) × Stores out s ptr s'

-- What `read_and_parse` returns for the payload `d`.
abbrev pub parsed : {X T : Type 0} → Json T → String → List ℕ → Result (Stop X String) T
parsed json name d = failing (
    map_failure (λ (e : String). "Cannot parse " <> name <> " from JSON bytes: " <> e)
      (json.from_slice d))

module _ (x : Extern) (service : Service x) (w : Wire) {T : Type 0} (json : Json T) where
  pub read_and_parse-Holds :
      (p : ℤ) (d : List ℕ) (name : String) (s : x.State)
      → service.Holds p d s
      → (s' : x.State) × (read_and_parse x w json p name s ≡ (parsed json name d, s'))
        × service.Reads s s'
  unfolding read_and_parse deserialize
  read_and_parse-Holds p d name s h =
      let (s', r, k) = service.read p d s h in
      (s', ground (arith, r, w.decode_data_frame d (service.Holds-small p d s h)), k)
