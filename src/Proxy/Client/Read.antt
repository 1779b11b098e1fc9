-- ===== src/Proxy/Client/Read.antt =====
-- `client_side_on_read` of src/proxy/proxy.c does not depend on how the bytes of a client arrive.
use libevent_paxos.Base.{
  ℕ, ◌≡◌, refl, sym, ap, ◌∙◌, List, ◌++◌, true, false, Bool-cases, Outcome, ok, out_of_bounds,
  never_ends, ◌>>=◌, >>=-cong, read_all, read_on, FaultsWhenEmpty, read_all-append, inl, inr,
}
use libevent_paxos.Proxy.Message.{ProxyEnv, read_word}
use libevent_paxos.Proxy.State.{Proxy}
use libevent_paxos.Proxy.Client.{client_frame_size, client_process_data, client_side_on_read}

module _ {M S : Type 0} where
  -- Nothing at all is not handled: the type is read behind the end of the buffer.
  pub client_process_data-empty :
      (env : ProxyEnv) (i : ℕ)
      → FaultsWhenEmpty {S = Proxy M S} client_frame_size (client_process_data env i)
  unfolding client_process_data read_word
  client_process_data-empty env i p = elim (Bool-cases (env.malloc 0)) [
    | inl enough ↦ (out_of_bounds, rw (enough, client_process_data) refl)
    | inr none_left ↦ (never_ends, rw (none_left, client_process_data) refl)
  ]

  -- The next call of the callback, with what the client sent in between behind the rest.
  abbrev pub client_reads_on :
      ProxyEnv → ℕ → List ℕ → Proxy M S × List ℕ → Outcome (Proxy M S × List ℕ)
  client_reads_on env i more (p, rest) = client_side_on_read env i p (rest ++ more)

  pub client_side_on_read-read_all :
      (env : ProxyEnv) (i : ℕ) (p : Proxy M S) (buf : List ℕ)
      → env.malloc 16 ≡ true
      → client_side_on_read env i p buf
        ≡ read_all client_frame_size (client_process_data env i) p buf
  unfolding client_side_on_read
  client_side_on_read-read_all env i p buf enough = rw (enough, client_side_on_read) refl

  client_side_on_read_refused :
      (env : ProxyEnv) (i : ℕ) (p : Proxy M S) (buf : List ℕ)
      → env.malloc 16 ≡ false
      → client_side_on_read env i p buf ≡ ok (p, buf)
  unfolding client_side_on_read
  client_side_on_read_refused env i p buf refused = rw (refused, client_side_on_read) refl

  -- It does not matter to the proxy in how many parts the bytes of a client come in: reading a part
  -- and then what it left with the next part behind it is the same as reading both at once, faults
  -- included.
  pub client_side_on_read-append :
      (env : ProxyEnv) (i : ℕ) (p : Proxy M S) (buf more : List ℕ)
      → client_side_on_read env i p (buf ++ more)
        ≡ (client_side_on_read env i p buf >>= client_reads_on env i more)
  client_side_on_read-append env i p buf more = elim (Bool-cases (env.malloc 16)) [
    | inr refused ↦ sym (
        ap (λ o. o >>= client_reads_on env i more)
          (client_side_on_read_refused env i p buf refused))
    | inl enough ↦
        let process = client_process_data env i in
        client_side_on_read-read_all env i p (buf ++ more) enough
        ∙ read_all-append client_frame_size process (client_process_data-empty env i) p buf more
        ∙ >>=-cong (read_all client_frame_size process p buf)
            (read_on client_frame_size process more) (client_reads_on env i more)
            (λ end done. sym (client_side_on_read-read_all env i end.0 (end.1 ++ more) enough))
        ∙ sym (
            ap (λ o. o >>= client_reads_on env i more)
              (client_side_on_read-read_all env i p buf enough))
  ]
