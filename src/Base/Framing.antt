-- ===== src/Base/Framing.antt =====
-- The loop that both readers of the program run over a buffer of a socket: as long as the buffer
-- holds the 16 bytes of a header and the whole message that the header announces, the message is
-- taken out and handled.
use Prim.Native.Nat.{ℕ, zero, suc, ◌+◌, ◌≤◌, ◌<◌}
use mathlib.Core.Path.{◌≡◌, refl, sym, ap, ◌∙◌, subst}
use mathlib.Core.Logic.{inl, inr}
use mathlib.Core.Bool.{Bool, true, false}
use mathlib.Core.List.{List, [], ◌∷◌, ◌++◌, append_assoc}
use native.Mathlib.Omega.{arith}
use native.Mathlib.Decide.{dec_lt}
use libevent_paxos.Base.Tests.{ltb, Bool-cases}
use libevent_paxos.Base.Lists.{
  length, take, drop, length-append, take-length, drop-length, concat, take_short, drop_short,
  length-drop,
}
use libevent_paxos.Base.Fallible.{
  Outcome, ok, crash, Fault, never_ends, ◌>>=◌, >>=-cong, >>=-assoc, crash≢ok,
}

-- The size of a header.
abbrev pub header_size : ℕ
header_size = 16

-- `frame_size` is the size of a message by its header, and `process` handles the bytes of one.
module _ {S : Type 0} (frame_size : List ℕ → ℕ) (process : S → List ℕ → Outcome S) where
  -- The buffer starts with a whole message.
  unfoldable pub has_frame : List ℕ → Bool
  has_frame buf = elim (ltb (length buf) header_size) [
    | true ↦ false
    | false ↦ elim (ltb (length buf) (frame_size (take header_size buf))) [
      | true ↦ false
      | false ↦ true
    ]
  ]

  abbrev pub first_size : List ℕ → ℕ
  first_size buf = frame_size (take header_size buf)

  -- At most `rounds` turns; what is left in the buffer comes back with the state.
  unfoldable pub read_frames : ℕ → S → List ℕ → Outcome (S × List ℕ)
  read_frames zero s buf = crash never_ends
  read_frames (suc rounds) s buf = elim (has_frame buf) [
    | false ↦ ok (s, buf)
    | true ↦ process s (take (first_size buf) buf) >>= λ s'.
        read_frames rounds s' (drop (first_size buf) buf)
  ]

  -- Every message takes at least a byte, so that as many turns as there are bytes are enough.
  unfoldable pub read_all : S → List ℕ → Outcome (S × List ℕ)
  read_all s buf = read_frames (suc (length buf)) s buf

  unfoldable pub process_all : S → List (List ℕ) → Outcome S
  process_all s [] = ok s
  process_all s (f ∷ fs) = process s f >>= λ s'. process_all s' fs

  -- A handler that is given nothing reads past its buffer.
  abbrev pub FaultsWhenEmpty : Type 0
  FaultsWhenEmpty = (s : S) → (fault : Fault) × (process s [] ≡ crash fault)

  pub has_frame-long :
      (buf : List ℕ) → has_frame buf ≡ true → (16 ≤ length buf) × (first_size buf ≤ length buf)
  unfolding has_frame
  has_frame-long buf h = ground arith

  pub long-has_frame :
      (buf : List ℕ) → 16 ≤ length buf → first_size buf ≤ length buf → has_frame buf ≡ true
  unfolding has_frame
  long-has_frame buf h h' = ground arith

  pub short-has_frame : (buf : List ℕ) → length buf < first_size buf → has_frame buf ≡ false
  unfolding has_frame
  short-has_frame buf h = ground arith

  pub read_frames_stops :
      (n : ℕ) (s : S) (buf : List ℕ)
      → has_frame buf ≡ false
      → read_frames (suc n) s buf ≡ ok (s, buf)
  unfolding read_frames
  read_frames_stops n s buf h = rw (h, read_frames) refl

  pub read_frames_turn :
      (n : ℕ) (s : S) (buf : List ℕ)
      → has_frame buf ≡ true
      → read_frames (suc n) s buf ≡ (
          process s (take (first_size buf) buf) >>= λ s'.
          read_frames n s' (drop (first_size buf) buf))
  unfolding read_frames
  read_frames_turn n s buf h = rw (h, read_frames) refl

  -- A message that is handled is not empty, and the buffer shrinks.
  pub handled_shrinks :
      FaultsWhenEmpty
      → (s s' : S) (buf : List ℕ) → has_frame buf ≡ true
      → process s (take (first_size buf) buf) ≡ ok s'
      → length (drop (first_size buf) buf) < length buf
  handled_shrinks short s s' buf h done = elim (dec_lt (first_size buf) 1) [
    | yes p ↦
        let (fault, stop) = short s in
        let nothing : first_size buf ≡ 0 = omega arith in
        absurd (crash≢ok (sym stop ∙ subst (λ n. process s (take n buf) ≡ ok s') nothing done))
    | no p ↦ omega (arith, length-drop (first_size buf) buf, has_frame-long buf h)
  ]

  -- Further turns change nothing.
  pub read_frames_enough :
      FaultsWhenEmpty
      → (n m : ℕ) (s : S) (buf : List ℕ) → length buf < n
      → length buf < m
      → read_frames n s buf ≡ read_frames m s buf
  read_frames_enough short zero m s buf h h' = absurd (omega arith)
  read_frames_enough short (suc n) zero s buf h h' = absurd (omega arith)
  read_frames_enough short (suc n) (suc m) s buf h h' = elim (Bool-cases (has_frame buf)) [
    | inr none_left ↦
        read_frames_stops n s buf none_left ∙ sym (read_frames_stops m s buf none_left)
    | inl more ↦
        read_frames_turn n s buf more
        ∙ >>=-cong (process s (take (first_size buf) buf))
            (λ s'. read_frames n s' (drop (first_size buf) buf))
            (λ s'. read_frames m s' (drop (first_size buf) buf))
            (λ s' done.
              let less = handled_shrinks short s s' buf more done in
              read_frames_enough short n m s' (drop (first_size buf) buf) (omega arith)
                (omega arith))
        ∙ sym (read_frames_turn m s buf more)
  ]

  -- What follows a whole message does not matter to it.
  header_kept : (buf more : List ℕ) → 16 ≤ length buf → first_size (buf ++ more) ≡ first_size buf
  header_kept buf more h = ap frame_size (take_short 16 buf more h)

  frame_kept : (buf more : List ℕ) → has_frame buf ≡ true → has_frame (buf ++ more) ≡ true
  frame_kept buf more h =
      let (long, whole) = has_frame-long buf h in
      let same = header_kept buf more long in
      long-has_frame (buf ++ more) (omega (arith, length-append buf more))
        (rw same (omega (arith, length-append buf more)))

  turn_kept :
      (n : ℕ) (s : S) (buf more : List ℕ)
      → has_frame buf ≡ true
      → read_frames (suc n) s (buf ++ more) ≡ (
          process s (take (first_size buf) buf) >>= λ s'.
          read_frames n s' (drop (first_size buf) buf ++ more))
  turn_kept n s buf more h =
      let (long, whole) = has_frame-long buf h in
      let same = header_kept buf more long in
      let whole_frame = take_short (first_size buf) buf more whole in
      let others = drop_short (first_size buf) buf more whole in
      read_frames_turn n s (buf ++ more) (frame_kept buf more h)
      ∙ rw (same, whole_frame, others) refl

  -- The rest of a read, with what arrives after it.
  abbrev pub read_on : List ℕ → S × List ℕ → Outcome (S × List ℕ)
  read_on more (s, rest) = read_all s (rest ++ more)

  pub read_all_rounds :
      FaultsWhenEmpty
      → (n : ℕ) (s : S) (buf : List ℕ) → length buf < n
      → read_frames n s buf ≡ read_all s buf
  unfolding read_all
  read_all_rounds short n s buf h =
      read_frames_enough short n (suc (length buf)) s buf h (omega arith)

  read_frames_chunks :
      FaultsWhenEmpty
      → (n m : ℕ) (s : S) (buf more : List ℕ) → length buf < n
      → length buf + length more < m
      → read_frames m s (buf ++ more) ≡ (read_frames n s buf >>= read_on more)
  read_frames_chunks short zero m s buf more h h' = absurd (omega arith)
  read_frames_chunks short (suc n) zero s buf more h h' = absurd (omega arith)
  read_frames_chunks short (suc n) (suc m) s buf more h h' = elim (Bool-cases (has_frame buf)) [
    | inr none_left ↦
        read_all_rounds short (suc m) s (buf ++ more) (omega (arith, length-append buf more))
        ∙ ap (λ o. o >>= read_on more) (sym (read_frames_stops n s buf none_left))
    | inl go_on ↦
        let first = process s (take (first_size buf) buf) in
        let rest = drop (first_size buf) buf in
        turn_kept m s buf more go_on
        ∙ >>=-cong first (λ s'. read_frames m s' (rest ++ more))
            (λ s'. read_frames n s' rest >>= read_on more)
            (λ s' done.
              let less = handled_shrinks short s s' buf go_on done in
              read_frames_chunks short n m s' rest more (omega arith) (omega arith))
        ∙ sym (>>=-assoc first (λ s'. read_frames n s' rest) (read_on more))
        ∙ ap (λ o. o >>= read_on more) (sym (read_frames_turn n s buf go_on))
  ]

  -- It does not matter in how many parts the bytes come in.
  pub read_all-append :
      FaultsWhenEmpty
      → (s : S) (buf more : List ℕ) → read_all s (buf ++ more) ≡ (read_all s buf >>= read_on more)
  unfolding read_all
  read_all-append short s buf more =
      read_frames_chunks short (suc (length buf)) (suc (length (buf ++ more))) s buf more
        (omega arith) (omega (arith, length-append buf more))

  -- A list of whole messages, each of the size that its header announces.
  pub data Frames : List (List ℕ) → Type 0 where
    no_frames : Frames []
    one_frame :
        {f : List ℕ} {fs : List (List ℕ)}
        → 16 ≤ length f
        → frame_size (take 16 f) ≡ length f
        → Frames fs
        → Frames (f ∷ fs)

  -- A buffer that starts with a whole message is read as that message and the rest.
  pub read_all_frame :
      FaultsWhenEmpty
      → (s : S) (f rest : List ℕ) → 16 ≤ length f
      → frame_size (take 16 f) ≡ length f
      → read_all s (f ++ rest) ≡ (process s f >>= λ s'. read_all s' rest)
  unfolding read_all
  read_all_frame short s f rest long sized =
      let whole : has_frame f ≡ true = long-has_frame f long (omega arith) in
      let all_of_it : take (first_size f) f ≡ f = rw sized (take-length f) in
      let none_left : drop (first_size f) f ≡ [] = rw sized (drop-length f) in
      turn_kept (length (f ++ rest)) s f rest whole
      ∙ rw (all_of_it, none_left)
          (>>=-cong (process s f) (λ s'. read_frames (length (f ++ rest)) s' rest)
            (λ s'. read_frames (suc (length rest)) s' rest)
            (λ s' done.
              read_frames_enough short (length (f ++ rest)) (suc (length rest)) s' rest
                (omega (arith, length-append f rest)) (omega arith)))

  -- Whole messages are handled one by one, and what does not make up a message stays.
  pub read_all-Frames :
      FaultsWhenEmpty
      → (s : S) (fs : List (List ℕ)) (rest : List ℕ) → Frames fs
      → has_frame rest ≡ false
      → read_all s (concat fs ++ rest) ≡ (process_all s fs >>= λ s'. ok (s', rest))
  unfolding read_all process_all
  read_all-Frames short s [] rest no_frames stops = read_frames_stops (length rest) s rest stops
  read_all-Frames short s (f ∷ fs) rest (one_frame long sized others) stops =
      ap (read_all s) (append_assoc f (concat fs) rest)
      ∙ read_all_frame short s f (concat fs ++ rest) long sized
      ∙ >>=-cong (process s f) (λ s'. read_all s' (concat fs ++ rest))
          (λ s'. process_all s' fs >>= λ s''. ok (s'', rest))
          (λ s' done. read_all-Frames short s' fs rest others stops)
      ∙ sym (>>=-assoc (process s f) (λ s'. process_all s' fs) (λ s''. ok (s'', rest)))
