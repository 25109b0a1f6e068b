-- ===== src/Boundary/Text.antt =====
-- `path` and `text` of src/io.rs: what the front ends do with borrowed bytes and buffers for a text.
use dotnet_pal_rs.Common.{
  ℕ, zero, suc, ◌+◌, ◌-◌, leb, ltb, ◌==◌, if◌then◌else◌, Bool, not, ◌&&◌, ◌||◌, Option, none, some,
  List, [], ◌∷◌, any,
}
use dotnet_pal_rs.Common.Words.{usize_max}
use dotnet_pal_rs.Port.{Result, ok, err, ok_status, error_status}
use dotnet_pal_rs.Boundary.Memory.{os_error_status}

-- `BUFFER_TOO_SMALL`
abbrev pub buffer_too_small_status : ℕ
buffer_too_small_status = 7

-- `runtime::MAX_NAME`
abbrev pub max_name : ℕ
max_name = 4095

-- `slice::from_raw_parts`
abbrev pub bytes_at : (ℕ → ℕ) → ℕ → ℕ → List ℕ
bytes_at memory address zero = []
bytes_at memory address (suc n) = memory address ∷ bytes_at memory (suc address) n

-- `ptr::write_bytes(address, 0, n)`
abbrev pub clear : (ℕ → ℕ) → ℕ → ℕ → ℕ → ℕ
clear memory address n i = if leb address i && ltb i (address + n) then 0 else memory i

-- `bytes.contains(&value)`
abbrev pub contains : ℕ → List ℕ → Bool
contains value bytes = any (λ b. b == value) bytes

-- `io::path`
unfoldable pub path : (ℕ → ℕ) → ℕ → ℕ → Option (List ℕ)
path memory address length =
    if address == 0 || (length == 0 || (ltb max_name length || ltb usize_max (address + length)))
    then none
    else (let bytes = bytes_at memory address length in
        if contains 0 bytes then none else some bytes)

-- What a provider works on: its own state, and the bytes of the buffers that it is given.
pub record Surroundings (W : Type 0) : Type 0 where
  pub world : W
  pub memory : ℕ → ℕ

-- A call of a provider.
abbrev pub Provided : Type 0 → Type 0 → Type 0
Provided W A = Surroundings W → Result A × Surroundings W

-- Whether a text that a provider wrote ends with its only NUL.
abbrev pub ends_once : (ℕ → ℕ) → ℕ → ℕ → Bool
ends_once memory out length =
    memory (out + (length - 1)) == 0 && not (contains 0 (bytes_at memory out (length - 1)))

-- The `match` of `io::text`: the status, and what is written behind `needed`.
unfoldable pub text_answer : (ℕ → ℕ) → ℕ → ℕ → ℕ → Result ℕ → ℕ × Option ℕ
text_answer memory out capacity limit (err e) = (error_status e, none)
text_answer memory out capacity limit (ok length) =
    if ltb length 2 || ltb limit length
    then (os_error_status, none)
    else if ltb capacity length
    then (buffer_too_small_status, some length)
    else if ends_once memory out length
    then (ok_status, some length)
    else (os_error_status, none)

-- `io::text`
unfoldable pub text :
    {W : Type 0} → ℕ → ℕ → ℕ → Provided W ℕ → Surroundings W → (ℕ × Option ℕ) × Surroundings W
unfolding text_answer
text out capacity limit provider s =
    let (r, s') = provider (record s { memory = clear s.memory out capacity }) in
    let (status, needed) = text_answer s'.memory out capacity limit r in
    (
      (status, needed),
      if status == ok_status then s' else record s' { memory = clear s'.memory out capacity },
    )
