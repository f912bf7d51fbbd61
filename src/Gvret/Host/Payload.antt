-- ===== src/Gvret/Host/Payload.antt =====
-- gvret.rs: the payload of a captured frame as the wire carries it, described without the encoder.
use wiretap_lib_rs.Base.{
  ℕ, zero, suc, ◌-◌, min, Bool, true, false, ◌≡◌, refl, sym, ap, ◌∙◌, List, [], ◌∷◌, ◌++◌, arith,
  length, take, replicate, leb, if◌then◌else◌,
}
use wiretap_lib_rs.Dlc.{dlc_to_len, payload_dlc, len_to_dlc, position_ge}
use wiretap_lib_rs.Dlc.Laws.{dlc_to_len_small}
use wiretap_lib_rs.Gvret.Encode.{carried}

-- So many bytes of a payload, and zeros where it has no more.
abbrev pub padded : ℕ → List ℕ → List ℕ
padded zero bytes = []
padded (suc n) [] = 0 ∷ padded n []
padded (suc n) (b ∷ bytes) = b ∷ padded n bytes

-- The length of a frame's data, and its code, for a payload: CAN FD goes on from 8 bytes in steps.
abbrev pub wire_length : ℕ → Bool → ℕ
wire_length n false = min n 8
wire_length n true =
    if leb n 8
    then n
    else if leb n 12
    then 12
    else if leb n 16
    then 16
    else if leb n 20
    then 20
    else if leb n 24
    then 24
    else if leb n 32
    then 32
    else if leb n 48
    then 48
    else 64

abbrev pub wire_code : ℕ → Bool → ℕ
wire_code n false = min n 8
wire_code n true =
    if leb n 8
    then n
    else if leb n 12
    then 9
    else if leb n 16
    then 10
    else if leb n 20
    then 11
    else if leb n 24
    then 12
    else if leb n 32
    then 13
    else if leb n 48
    then 14
    else 15

pub payload_dlc-wire_code : (n : ℕ) (fd : Bool) → payload_dlc n fd ≡ wire_code n fd
unfolding payload_dlc len_to_dlc position_ge
payload_dlc-wire_code n false = ground arith
payload_dlc-wire_code n true = ground arith

-- The table of the codes above 8.
fd_lengths :
    (dlc_to_len 9 true ≡ 12)
    × (dlc_to_len 10 true ≡ 16)
    × (dlc_to_len 11 true ≡ 20)
    × (dlc_to_len 12 true ≡ 24)
    × (dlc_to_len 13 true ≡ 32)
    × (dlc_to_len 14 true ≡ 48)
    × (dlc_to_len 15 true ≡ 64)
unfolding dlc_to_len
fd_lengths = (refl, refl, refl, refl, refl, refl, refl)

dlc_to_len-wire_code : (n : ℕ) (fd : Bool) → dlc_to_len (wire_code n fd) fd ≡ wire_length n fd
dlc_to_len-wire_code n false = dlc_to_len_small (min n 8) false (omega arith)
dlc_to_len-wire_code n true = ground (arith, dlc_to_len_small n true, fd_lengths)

padded-nil : (n : ℕ) → padded n [] ≡ replicate n 0
padded-nil zero = refl
padded-nil (suc n) = ap (λ bs. 0 ∷ bs) (padded-nil n)

take-padded :
    (n : ℕ) (bytes : List ℕ)
    → take (min n (length bytes)) bytes ++ replicate (n - min n (length bytes)) 0 ≡ padded n bytes
take-padded zero [] = refl
take-padded zero (b ∷ bytes) =
    let none_taken : min 0 (length (b ∷ bytes)) ≡ 0 = omega arith in rw (none_taken) refl
take-padded (suc n) [] =
    let none_taken : min (suc n) 0 ≡ 0 = omega arith in
    let all_missing : suc n - 0 ≡ suc n = omega arith in
    rw (none_taken) (rw (all_missing) (ap (λ bs. 0 ∷ bs) (sym (padded-nil n))))
take-padded (suc n) (b ∷ bytes) =
    let one_more : min (suc n) (suc (length bytes)) ≡ suc (min n (length bytes)) = omega arith in
    let as_many : suc n - suc (min n (length bytes)) ≡ n - min n (length bytes) = omega arith in
    rw (one_more, as_many) (ap (λ bs. b ∷ bs) (take-padded n bytes))

pub carried-padded :
    (payload : List ℕ) (fd : Bool)
    → carried payload fd ≡ padded (wire_length (length payload) fd) payload
unfolding carried
carried-padded payload fd =
    take-padded (dlc_to_len (payload_dlc (length payload) fd) fd) payload
    ∙ ap (λ n. padded n payload)
        (ap (λ c. dlc_to_len c fd) (payload_dlc-wire_code (length payload) fd)
          ∙ dlc_to_len-wire_code (length payload) fd)
