-- ===== src/Consensus/Record/Coding.antt =====
-- A record read back from its bytes.
use libevent_paxos.Base.{
  ℕ, ◌≡◌, refl, ap, List, ◌∷◌, ◌++◌, ◌∙◌, le_bytes, append_assoc, arith, length, take,
  length-append, take-append, le_value-le_bytes, drop-le_bytes, length-le_bytes, subst,
}
use libevent_paxos.Consensus.Record.{
  RequestRecord, IsRecord, record_header_size, header_bytes, encode_record, decode_record,
  req_record_size,
}

pub length-header_bytes : (r : RequestRecord) → length (header_bytes r) ≡ record_header_size
unfolding header_bytes
length-header_bytes r = simp (length-append, length-le_bytes) refl

-- The bytes of a record are as many as REQ_RECORD_SIZE says.
pub length-encode_record :
    (r : RequestRecord) → IsRecord r → length (encode_record r) ≡ req_record_size r
unfolding encode_record req_record_size
length-encode_record r fits =
    omega (arith, length-append (header_bytes r) r.body, length-header_bytes r, fits.sized)

-- Such a buffer is never empty.
pub encode_record-cons : (r : RequestRecord) → (b : ℕ) × (bs : List ℕ) × (encode_record r ≡ b ∷ bs)
unfolding encode_record le_bytes
encode_record-cons r = (_, _, refl)

-- The fields are read back from their bytes; the data are as many of the bytes behind them as the
-- size field says.
pub decode-header_bytes :
    (r : RequestRecord) (tail : List ℕ)
    → IsRecord r
    → decode_record (header_bytes r ++ tail) ≡ record r { body = take r.data_size tail }
unfolding header_bytes decode_record
decode-header_bytes r tail fits =
    simp (append_assoc, drop-le_bytes)
      (rw
        (
          le_value-le_bytes 8 r.created_time.tv_sec _ fits.sec_fits,
          le_value-le_bytes 8 r.created_time.tv_usec _ fits.usec_fits,
          le_value-le_bytes 1 r.is_closed _ fits.closed_fits,
          le_value-le_bytes 8 r.bit_map _ fits.bits_fit,
          le_value-le_bytes 8 r.data_size _ fits.size_fits,
        )
        refl)

take_body :
    (r : RequestRecord) (rest : List ℕ) → IsRecord r → take r.data_size (r.body ++ rest) ≡ r.body
take_body r rest fits =
    subst (λ n. take n (r.body ++ rest) ≡ r.body) fits.sized (take-append r.body rest)

-- A record whose fields fit their words and whose size is that of its data is read back from its
-- bytes, whatever lies behind them.
pub decode-encode :
    (r : RequestRecord) (rest : List ℕ) → IsRecord r → decode_record (encode_record r ++ rest) ≡ r
unfolding encode_record
decode-encode r rest fits =
    ap decode_record (append_assoc (header_bytes r) r.body rest)
    ∙ decode-header_bytes r (r.body ++ rest) fits
    ∙ ap (λ bytes. record r { body = bytes }) (take_body r rest fits)
