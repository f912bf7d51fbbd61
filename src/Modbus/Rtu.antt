-- ===== src/Modbus/Rtu.antt =====
-- modbus_rtu_stream.rs: what is recovered from an RTU byte stream, and where a message may end. An
-- index or a range past the end of a slice, where the code panics, gives `none`.
pub mod Stream
pub mod Bounds
pub mod Choices
pub mod Drained
pub mod Messages
pub mod Residue
pub mod Finished
pub mod Returns
pub mod Interpret
pub mod Policies
use wiretap_lib_rs.Base.{
  ℕ, ◌+◌, ◌-◌, ◌*◌, ◌%◌, bit_and, Bool, true, false, not, ◌&&◌, ◌||◌, Option, none, some, List, [],
  ◌∷◌, length, take, drop, get_elem?, ltb, leb, ◌==◌, if◌then◌else◌, ◌>>=◌,
}
use wiretap_lib_rs.Base.Bytes.{at, u16_from_be}
use wiretap_lib_rs.Modbus.Protocol.{
  RegisterType, max_data_bytes, from_function_code, is_register_bank, max_per_read, max_per_write,
  data_bytes,
}

pub data Direction : Type 0 where
  request response : Direction

pub data CrcPolicy : Type 0 where
  strict lenient : CrcPolicy

pub record ModbusRtuMessage : Type 0 where
  pub direction : Direction
  pub device_address : ℕ
  pub function : ℕ
  pub start_register : Option ℕ
  pub quantity : Option ℕ
  pub registers : List ℕ
  pub exception : Option ℕ
  pub raw : List ℕ
  pub crc_valid : Bool
  pub frame_count : ℕ

pub record Candidate : Type 0 where
  pub len : ℕ
  pub direction : Direction

-- A request's function, first register and quantity.
abbrev pub Request : Type 0
Request = ℕ × ℕ × ℕ

-- The guards of the code's tables of function codes.
abbrev pub is_exception : ℕ → Bool
is_exception f = not (bit_and f 0x80 == 0)

abbrev pub is_read : ℕ → Bool
is_read f = leb 0x01 f && leb f 0x04

abbrev pub is_write_single : ℕ → Bool
is_write_single f = f == 0x05 || f == 0x06

abbrev pub is_write_multiple : ℕ → Bool
is_write_multiple f = f == 0x0F || f == 0x10

abbrev pub is_response : Direction → Bool
is_response request = false
is_response response = true

unfoldable pub req : ℕ → Option Candidate
req len = some (record { len = len; direction = request })

unfoldable pub resp : ℕ → Option Candidate
resp len = some (record { len = len; direction = response })

-- A layout whose length waits for the byte count at an index.
unfoldable pub counted : List ℕ → ℕ → (ℕ → Option Candidate) → Option Candidate
counted buf idx layout = elim (get_elem? buf idx) [ none ↦ none | some n ↦ layout n ]

unfoldable pub layouts : ℕ → List ℕ → Option Candidate × Option Candidate
unfolding req resp counted
layouts func buf =
    if is_exception func
    then (resp 5, none)
    else if is_read func
    then (req 8, counted buf 2 (λ n. resp (5 + n)))
    else if is_write_single func
    then (req 8, none)
    else if is_write_multiple func
    then (resp 8, counted buf 6 (λ n. req (9 + n)))
    else (none, none)

abbrev pub longest_first : Option Candidate → Option Candidate → List (Option Candidate)
longest_first (some first) (some second) =
    if ltb first.len second.len
    then some second ∷ some first ∷ []
    else some first ∷ some second ∷ []
longest_first (some first) none = some first ∷ none ∷ []
longest_first none second = none ∷ second ∷ []

-- Of a buffer whose byte at 1, the function code, the caller has read.
unfoldable pub candidates : ℕ → List ℕ → List (Option Candidate)
unfolding layouts
candidates func buf = let pair = layouts func buf in longest_first pair.0 pair.1

-- `into_iter().flatten().find(…)`.
unfoldable pub find : (Candidate → Bool) → List (Option Candidate) → Option Candidate
find test [] = none
find test (none ∷ cs) = find test cs
find test (some c ∷ cs) = if test c then some c else find test cs

unfoldable pub be_at : List ℕ → ℕ → Option ℕ
be_at raw i = do hi ← get_elem? raw i; lo ← get_elem? raw (i + 1); some (u16_from_be hi lo)

-- `is_none_or`.
abbrev pub is_none_or {ℓ} : {A : Type ℓ} → Option A → (A → Bool) → Bool
is_none_or none test = true
is_none_or (some a) test = test a

-- `is_some_and`.
abbrev pub is_some_and {ℓ} : {A : Type ℓ} → Option A → (A → Bool) → Bool
is_some_and none test = false
is_some_and (some a) test = test a

abbrev pub or_zero : Option ℕ → ℕ
or_zero none = 0
or_zero (some n) = n

abbrev pub in_range : ℕ → ℕ → ℕ → Bool
in_range lo hi n = leb lo n && leb n hi

unfoldable pub exception_plausible : List ℕ → Bool
exception_plausible buf = is_none_or (get_elem? buf 2) (in_range 0x01 0x0B)

unfoldable pub read_request_plausible : ℕ → List ℕ → Bool
unfolding be_at
read_request_plausible func buf =
    is_some_and (from_function_code func)
      (λ bank. is_none_or (be_at buf 4) (in_range 1 (max_per_read bank)))

unfoldable pub read_response_plausible : ℕ → List ℕ → Bool
read_response_plausible func buf =
    let register_bank = is_some_and (from_function_code func) is_register_bank in
    is_none_or (get_elem? buf 2)
      (λ n. in_range 1 max_data_bytes n && (not register_bank || n % 2 == 0))

unfoldable pub write_request_plausible : ℕ → List ℕ → Bool
unfolding be_at
write_request_plausible func buf = is_some_and (from_function_code func) (λ bank.
    is_none_or (be_at buf 4) (λ quantity.
      is_none_or (get_elem? buf 6)
        (λ n. in_range 1 (or_zero (max_per_write bank)) quantity && n == data_bytes bank quantity)))

-- The function code is the buffer's byte at 1, which the caller has read.
unfoldable pub is_plausible : ℕ → List ℕ → Candidate → Bool
unfolding exception_plausible read_request_plausible read_response_plausible write_request_plausible
is_plausible func buf candidate =
    let answer = is_response candidate.direction in
    if is_exception func
    then exception_plausible buf
    else if is_read func
    then (if answer then read_response_plausible func buf else read_request_plausible func buf)
    else if is_write_multiple func && not answer
    then write_request_plausible func buf
    else true

-- A trailing odd byte is dropped.
unfoldable pub registers_be : List ℕ → List ℕ
registers_be [] = []
registers_be (b ∷ []) = []
registers_be (hi ∷ lo ∷ rest) = u16_from_be hi lo ∷ registers_be rest

-- `registers_be(&raw[i..i + n])`.
unfoldable pub block : List ℕ → ℕ → ℕ → Option (List ℕ)
unfolding registers_be
block raw i n = if leb (i + n) (length raw) then some (registers_be (take n (drop i raw))) else none

-- What the bytes of a message say, and the outstanding request that they leave.
pub record Fields : Type 0 where
  pub direction : Direction
  pub start_register : Option ℕ
  pub quantity : Option ℕ
  pub registers : List ℕ
  pub exception : Option ℕ
  pub last_request : Option Request

unfoldable pub exception_fields : Direction → List ℕ → Option Request → Option Fields
exception_fields direction raw last = do
  code ← get_elem? raw 2
  some (record {
    direction = direction;
    start_register = none;
    quantity = none;
    registers = [];
    exception = some code;
    last_request = last;
  })

unfoldable pub header_fields : Direction → List ℕ → Option Request → Option Fields
unfolding be_at
header_fields direction raw last = do
  start ← be_at raw 2
  quantity ← be_at raw 4
  some (record {
    direction = direction;
    start_register = some start;
    quantity = some quantity;
    registers = [];
    exception = none;
    last_request = last;
  })

unfoldable pub read_response_fields : List ℕ → Option Request → Option Fields
unfolding block
read_response_fields raw last = do
  count ← get_elem? raw 2
  registers ← block raw 3 count
  some (record {
    direction = response;
    start_register = none;
    quantity = none;
    registers = registers;
    exception = none;
    last_request = last;
  })

-- The outstanding request decides which side of a single write this is.
abbrev pub write_single_direction : ℕ → Option Request → Direction
write_single_direction function none = request
write_single_direction function (some (f, start, quantity)) =
    if f == function then response else request

unfoldable pub write_single_fields : ℕ → List ℕ → Option Request → Option Fields
unfolding be_at
write_single_fields function raw last = do
  start ← be_at raw 2
  value ← be_at raw 4
  some (record {
    direction = write_single_direction function last;
    start_register = some start;
    quantity = some 1;
    registers = value ∷ [];
    exception = none;
    last_request = none;
  })

unfoldable pub write_request_fields : List ℕ → Option Request → Option Fields
unfolding be_at block
write_request_fields raw last = do
  start ← be_at raw 2
  quantity ← be_at raw 4
  count ← get_elem? raw 6
  registers ← block raw 7 count
  some (record {
    direction = request;
    start_register = some start;
    quantity = some quantity;
    registers = registers;
    exception = none;
    last_request = last;
  })

unfoldable pub no_fields : Direction → Option Request → Option Fields
no_fields direction last = some (record {
  direction = direction;
  start_register = none;
  quantity = none;
  registers = [];
  exception = none;
  last_request = last;
})

unfoldable pub fields_of : ℕ → Direction → List ℕ → Option Request → Option Fields
unfolding exception_fields header_fields read_response_fields write_single_fields
    write_request_fields no_fields
fields_of function direction raw last =
    let answer = is_response direction in
    if is_exception function
    then exception_fields direction raw last
    else if (is_read function && not answer) || (is_write_multiple function && answer)
    then header_fields direction raw last
    else if is_read function
    then read_response_fields raw last
    else if is_write_single function
    then write_single_fields function raw last
    else if is_write_multiple function
    then write_request_fields raw last
    else no_fields direction last

-- A response without an address takes the outstanding request's.
unfoldable pub answered : Fields → Fields
answered fs = elim fs.last_request [
  | none ↦ fs
  | some (f, start, quantity) ↦ record fs {
    start_register = some start;
    quantity = some quantity;
    last_request = none;
  }
]

abbrev pub is_none {ℓ} : {A : Type ℓ} → Option A → Bool
is_none none = true
is_none (some a) = false

unfoldable pub resolve : ℕ → Fields → Fields
unfolding answered
resolve function fs =
    if is_response fs.direction
    then (if is_none fs.start_register then answered fs else fs)
    else record fs {
      last_request = some (function, or_zero fs.start_register, or_zero fs.quantity);
    }
