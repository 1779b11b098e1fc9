-- ===== src/Consensus/Handle/Missing.antt =====
-- Records that a node has missed: what the answer to its request brings it.
use libevent_paxos.Base.{
  ℕ, pos, ◌<◌, ◌^◌, ◌+◌, ◌-◌, ◌≤◌, ◌≡◌, refl, ap, ◌∙◌, true, List, ◌++◌, append_assoc, some, arith,
  length, take, take_past, take_short,
}
use libevent_paxos.Stamp.{ViewStamp, vstol}
use libevent_paxos.Db.{Bdb, retrieve_record}
use libevent_paxos.Consensus.Record.{
  Env, RequestRecord, IsRecord, header_bytes, encode_record, decode_record, memcpy,
}
use libevent_paxos.Consensus.Record.Coding.{length-header_bytes, decode-header_bytes, decode-encode}
use libevent_paxos.Consensus.Message.{MissingAck, missing_ack_size}
use libevent_paxos.Consensus.State.{Comp}
use libevent_paxos.Consensus.Execute.{retrieve}
use libevent_paxos.Consensus.Build.{widened, build_missing_ack}

-- The bytes copied into a missing ack end five bytes before the record does.
copied_bytes :
    (r : RequestRecord) (heap : List ℕ)
    → IsRecord r
    → 5 ≤ r.data_size
    → take (missing_ack_size r.data_size) (encode_record r ++ heap)
      ≡ header_bytes r ++ take (r.data_size - 5) r.body
unfolding encode_record
copied_bytes r heap fits long =
    let count : 28 + r.data_size ≡ length (header_bytes r) + (r.data_size - 5) =
      omega (arith, length-header_bytes r) in
    rw (append_assoc (header_bytes r) r.body heap, count)
      (take_past (header_bytes r) (r.body ++ heap) (r.data_size - 5)
        ∙ ap (◌++◌ (header_bytes r))
            (take_short (r.data_size - 5) r.body heap (omega (arith, fits.sized))))

widened_small : (n : ℕ) → n < 2 ^ 31 → widened n ≡ n
widened_small n h = ground arith

module _ (bdb : Bdb) (env : Env) where
  -- With memory for the message, the answer to a request for a stored record that fits its fields,
  -- has at least five bytes of data and is below 2 GiB with the header of the message carries all but
  -- the last five of them: a receiver reads, in their place, the bytes that lie behind the message.
  pub build_missing_ack_truncates :
      (c : Comp bdb.Store) (vs : ViewStamp) (r : RequestRecord) (receiver : Env)
      → IsRecord r
      → 5 ≤ r.data_size
      → missing_ack_size r.data_size < 2 ^ 31
      → retrieve_record bdb c.db (vstol vs) ≡ (0, some (encode_record r))
      → env.malloc (missing_ack_size r.data_size) ≡ true
      → (m : MissingAck) × (build_missing_ack bdb env c vs ≡ some m)
        × (decode_record (m.body ++ receiver.heap)
            ≡ record r { body = take r.data_size (take (r.data_size - 5) r.body ++ receiver.heap) })
  unfolding build_missing_ack retrieve
  build_missing_ack_truncates c vs r receiver fits long int there room = (
    record {
      node_id = pos c.node_id;
      missing_vs = vs;
      data_size = missing_ack_size r.data_size;
      body = memcpy env (missing_ack_size r.data_size) (encode_record r ++ env.heap);
    },
    rw (there, build_missing_ack)
        (rw
          (
            decode-encode r env.heap fits,
            widened_small (missing_ack_size r.data_size) int,
            build_missing_ack,
          )
          (rw room refl)),
    ap (λ bytes. decode_record (take (missing_ack_size r.data_size) bytes ++ receiver.heap))
          (append_assoc (encode_record r) env.heap env.heap)
        ∙ ap (λ bytes. decode_record (bytes ++ receiver.heap))
            (copied_bytes r (env.heap ++ env.heap) fits long)
        ∙ ap decode_record
            (append_assoc (header_bytes r) (take (r.data_size - 5) r.body) receiver.heap)
        ∙ decode-header_bytes r (take (r.data_size - 5) r.body ++ receiver.heap) fits,
  )
