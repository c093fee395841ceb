-- ===== src/Radio/Requests.antt =====
-- `TxRequest::new` of firmware/golfer/src/radio.rs: which payloads it takes, and what is sent of them.
use golfer.Prelude.{
  ℕ, ◌≤◌, ◌≡◌, refl, ◌∙◌, ap, Bool, some, List, length, take, replicate, copy_at, arith, ge→ltb,
  copy_at-parts, take-append, length-copy_at, drop, ◌+◌, ◌%◌, ◌^◌,
}
use golfer.Prelude.Int.{ℤ}
use golfer.Radio.{TxRequest, new_request, tx_buffer_size}

-- The request that carries a payload.
abbrev Carries : ℕ → List ℕ → ℤ → Bool → TxRequest → Type 0
Carries token payload power_dbm resume_receive request =
    (take request.len request.data_bytes ≡ payload)
    × (length request.data_bytes ≡ tx_buffer_size)
    × (request.token ≡ token)
    × (request.len ≡ length payload)
    × (request.power_dbm ≡ power_dbm)
    × (request.resume_receive ≡ resume_receive)

-- The first bytes of the buffer are the payload.
take-copied :
    (payload : List ℕ)
    → length payload ≤ tx_buffer_size
    → take (length payload) (copy_at (replicate tx_buffer_size 0) 0 payload) ≡ payload
take-copied payload h =
    ap (take (length payload)) (copy_at-parts (replicate tx_buffer_size 0) 0 payload (omega arith))
    ∙ take-append (length payload) payload (drop (0 + length payload) (replicate tx_buffer_size 0))
        refl

-- A payload of at most 255 bytes makes a request, whose token, power and mode are those given and
-- whose first `len` bytes, which are what `handle_command` transmits, are the payload.
new_request-Carries :
    (token : ℕ) (payload : List ℕ) (power_dbm : ℤ) (resume_receive : Bool)
    → length payload ≤ tx_buffer_size
    → (request : TxRequest) × (new_request token payload power_dbm resume_receive ≡ some request)
      × Carries token payload power_dbm resume_receive request
unfolding new_request
new_request-Carries token payload power_dbm resume_receive h =
    let len : length payload % 2 ^ 8 ≡ length payload = omega arith in
    (
      _,
      rw (ge→ltb tx_buffer_size (length payload) h),
      (
        ap (λ n. take n (copy_at (replicate tx_buffer_size 0) 0 payload)) len
            ∙ take-copied payload h,
        length-copy_at (replicate tx_buffer_size 0) 0 payload,
        refl,
        len,
        refl,
        refl,
      ),
    )
