-- ===== src/Proxy/Message/Coding.antt =====
-- What is read from the bytes of a message of the proxy.
use libevent_paxos.Base.{
  ℕ, ◌+◌, ◌^◌, ◌<◌, ◌≡◌, refl, ap, List, ◌++◌, ◌∙◌, le_bytes, append_assoc, arith, length, drop,
  ◌≤◌, sym, [], take-length, drop-append, le→not-lt, length-append, le_value-le_bytes,
  length-le_bytes, subst, ok,
}
use libevent_paxos.Proxy.Message.{
  ProxyHeader, proxy_header_bytes, read_word, read_action, read_connection_id, read_data_size,
  copied,
}

-- The fields fit their words, and the data of a message to send are as many as it says.
pub record IsHeader (h : ProxyHeader) : Type 0 where
  pub action_fits : h.action < 2 ^ 32
  pub id_fits : h.connection_id < 2 ^ 64

pub length-proxy_header_bytes :
    (padding : ℕ) (h : ProxyHeader) → length (proxy_header_bytes padding h) ≡ 56
unfolding proxy_header_bytes
length-proxy_header_bytes padding h = simp (length-append, length-le_bytes) refl

-- A word is found behind as many bytes as its place says.
pub read_word-le_bytes :
    (before rest : List ℕ) (size v : ℕ)
    → v < 256 ^ size
    → read_word (length before) size (before ++ (le_bytes size v ++ rest)) ≡ ok v
unfolding read_word
read_word-le_bytes before rest size v fits =
    let there : length before + size ≤ length (before ++ (le_bytes size v ++ rest)) = omega (
      arith,
      length-append before (le_bytes size v ++ rest),
      length-append (le_bytes size v) rest,
      length-le_bytes size v,
    ) in
    let found : drop (length before) (before ++ (le_bytes size v ++ rest))
        ≡ le_bytes size v ++ rest =
      drop-append before (le_bytes size v ++ rest) in
    rw
      (
        le→not-lt (length before + size) (length (before ++ (le_bytes size v ++ rest))) there,
        found,
        le_value-le_bytes size v rest fits,
      )
      refl

-- The fields before the connection id.
times_bytes : ℕ → ProxyHeader → List ℕ
times_bytes padding h =
    le_bytes 4 h.action
    ++ (le_bytes 4 padding
        ++ (le_bytes 8 h.received_time.tv_sec
            ++ (le_bytes 8 h.received_time.tv_usec
                ++ (le_bytes 8 h.created_time.tv_sec ++ le_bytes 8 h.created_time.tv_usec))))

length-times_bytes : (padding : ℕ) (h : ProxyHeader) → length (times_bytes padding h) ≡ 40
unfolding times_bytes
length-times_bytes padding h = simp (length-append, length-le_bytes) refl

split_header :
    (padding : ℕ) (h : ProxyHeader) (rest : List ℕ)
    → proxy_header_bytes padding h ++ rest
      ≡ times_bytes padding h ++ (le_bytes 8 h.connection_id ++ (le_bytes 8 h.counter ++ rest))
unfolding times_bytes proxy_header_bytes
split_header padding h rest = simp append_assoc refl

pub read_action-header :
    (padding : ℕ) (h : ProxyHeader) (rest : List ℕ)
    → IsHeader h
    → read_action (proxy_header_bytes padding h ++ rest) ≡ ok h.action
unfolding proxy_header_bytes
read_action-header padding h rest fits =
    ap read_action (append_assoc (le_bytes 4 h.action) _ rest)
    ∙ read_word-le_bytes [] _ 4 h.action fits.action_fits

pub read_connection_id-header :
    (padding : ℕ) (h : ProxyHeader) (rest : List ℕ)
    → IsHeader h
    → read_connection_id (proxy_header_bytes padding h ++ rest) ≡ ok h.connection_id
read_connection_id-header padding h rest fits =
    ap read_connection_id (split_header padding h rest)
    ∙ subst
        (λ n.
          read_word n 8 (
            times_bytes padding h ++ (le_bytes 8 h.connection_id ++ (le_bytes 8 h.counter ++ rest)))
          ≡ ok h.connection_id)
        (length-times_bytes padding h)
        (read_word-le_bytes (times_bytes padding h) _ 8 h.connection_id fits.id_fits)

pub read_data_size-header :
    (padding size : ℕ) (h : ProxyHeader) (rest : List ℕ)
    → size < 2 ^ 64
    → read_data_size (proxy_header_bytes padding h ++ (le_bytes 8 size ++ rest)) ≡ ok size
read_data_size-header padding size h rest fits =
    subst (λ n. read_word n 8 (proxy_header_bytes padding h ++ (le_bytes 8 size ++ rest)) ≡ ok size)
      (length-proxy_header_bytes padding h)
      (read_word-le_bytes (proxy_header_bytes padding h) rest 8 size fits)

-- The data behind header and size.
pub drop-send_header :
    (padding size : ℕ) (h : ProxyHeader) (rest : List ℕ)
    → drop 64 (proxy_header_bytes padding h ++ (le_bytes 8 size ++ rest)) ≡ rest
drop-send_header padding size h rest =
    let front = proxy_header_bytes padding h ++ le_bytes 8 size in
    let sized : length front ≡ 64 = omega (
      arith,
      length-append (proxy_header_bytes padding h) (le_bytes 8 size),
      length-proxy_header_bytes padding h,
      length-le_bytes 8 size,
    ) in
    ap (drop 64) (sym (append_assoc (proxy_header_bytes padding h) (le_bytes 8 size) rest))
    ∙ subst (λ n. drop n (front ++ rest) ≡ rest) sized (drop-append front rest)

pub copied-length : (bytes : List ℕ) → copied (length bytes) bytes ≡ ok bytes
unfolding copied
copied-length bytes =
    rw (le→not-lt (length bytes) (length bytes) (omega arith), take-length bytes) refl
