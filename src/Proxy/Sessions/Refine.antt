-- ===== src/Proxy/Sessions/Refine.antt =====
-- `do_action_to_server` of src/proxy/proxy.c does with the bytes of a message what `serve` does with
-- the message.
use libevent_paxos.Base.{
  ℕ, ◌≡◌, refl, sym, ap, ◌∙◌, subst, Option, none, some, List, [], ◌∷◌, ◌++◌, length, drop,
  append-nil, eq→==, ne→==, inl, inr, Option-cases, elim_some, elim_none, >>=-ok, eq_or_ne, ok,
  Outcome,
}
use mathlib.Core.Path.{fun_ext}
use libevent_paxos.Proxy.Message.{read_connection_id, read_data_size, copied}
use libevent_paxos.Proxy.State.{
  opens, Hash, SocketPair, Proxy, ProxyEffect, set_up, connect_to, write_bytes, free_bev, close_fd,
  add_re_con, wake_self, pair_at, put_pair, with_effects, server_side, s_addr,
}
use libevent_paxos.Proxy.Action.{
  new_pair, freed, add_pair, connect_pair, do_action_connect, do_action_send, do_action_close,
}
use libevent_paxos.Proxy.Sessions.{Links, set_link, opened, sent_on, writes, link, IsSound}
use libevent_paxos.Proxy.Sessions.Pairs.{
  pair_at-length, link_found, link_missing, put_pair-IsSound, link-put_pair, add_pair-IsSound,
  link-add_pair,
}

pub writes-append : (xs ys : List ProxyEffect) → writes (xs ++ ys) ≡ writes xs ++ writes ys
unfolding writes
writes-append [] ys = refl
writes-append (write_bytes bev bytes ∷ xs) ys = ap (◌∷◌ (bev, bytes)) (writes-append xs ys)
writes-append (set_up bev c ∷ xs) ys = writes-append xs ys
writes-append (connect_to bev a ∷ xs) ys = writes-append xs ys
writes-append (free_bev bev ∷ xs) ys = writes-append xs ys
writes-append (close_fd fd ∷ xs) ys = writes-append xs ys
writes-append (add_re_con t ∷ xs) ys = writes-append xs ys
writes-append (wake_self ∷ xs) ys = writes-append xs ys

writes-freed : (a b : Option ℕ) → writes (freed a ++ freed b) ≡ []
unfolding writes
writes-freed none none = refl
writes-freed none (some y) = refl
writes-freed (some x) none = refl
writes-freed (some x) (some y) = refl

writes-connected :
    (bev i : ℕ) → writes (set_up bev (server_side i) ∷ connect_to bev s_addr ∷ []) ≡ []
unfolding writes
writes-connected bev i = refl

writes-sent : (bev : ℕ) (bytes : List ℕ) → writes (write_bytes bev bytes ∷ []) ≡ (bev, bytes) ∷ []
unfolding writes
writes-sent bev bytes = refl

set_link_same : (links : Links) (k : ℕ) (v : Option ℕ) → links k ≡ v → set_link links k v ≡ links
set_link_same links k v same = fun_ext λ j. elim (eq_or_ne j k) [
  | inl e ↦ rw (eq→== j k e) (sym same ∙ ap links (sym e))
  | inr apart ↦ rw (ne→== j k apart) refl
]

set_link_twice :
    (links : Links) (k : ℕ) (v w : Option ℕ)
    → set_link (set_link links k v) k w ≡ set_link links k w
set_link_twice links k v w = fun_ext λ j. elim (eq_or_ne j k) [
  | inl e ↦ rw (eq→== j k e) refl
  | inr apart ↦ rw (ne→== j k apart) refl
]

module _ (hash : Hash) {S : Type 0} where
  -- A run that ends well, in a sound state with these links, and with these writes in addition.
  pub record Serves (p : Proxy hash.Map S) (o : Outcome (Proxy hash.Map S)) (links : Links)
      (traffic : List (ℕ × List ℕ)) : Type 0 where
    pub after : Proxy hash.Map S
    pub ends : o ≡ ok after
    pub sound : IsSound hash after
    pub linked : link hash after ≡ links
    pub written : writes after.effects ≡ writes p.effects ++ traffic

  pub no_writes : (p : Proxy hash.Map S) → writes p.effects ≡ writes p.effects ++ []
  no_writes p = sym (append-nil (writes p.effects))

  emitted :
      (p : Proxy hash.Map S) (es : List ProxyEffect) (traffic : List (ℕ × List ℕ))
      → writes es ≡ traffic
      → writes (with_effects p es).effects ≡ writes p.effects ++ traffic
  emitted p es traffic e = writes-append p.effects es ∙ ap (λ t. writes p.effects ++ t) e

  connect_pair-Serves :
      (bev k i : ℕ) (p : Proxy hash.Map S) (pair : SocketPair)
      → IsSound hash p
      → hash.find p.hash_map k ≡ some i
      → pair_at p.pairs i ≡ some pair
      → Serves p
          (connect_pair hash (opens bev) p i)
          (set_link (link hash p) k (opened bev pair.p_s))
          []
  unfolding connect_pair link
  connect_pair-Serves bev k i p pair sound found there = elim (Option-cases pair.p_s) [
    | inr (old, has) ↦ record {
      after = p;
      ends = elim_some _ _ there ∙ elim_some _ _ has;
      sound = sound;
      linked = sym (
          ap (λ v. set_link (link hash p) k (opened bev v)) has
          ∙ set_link_same (link hash p) k (some old)
              (link_found hash p k i pair found there ∙ has));
      written = no_writes p;
    }
    | inl has_none ↦
        let with_conn = record pair { p_s = some bev } in
        let p' = put_pair p i with_conn in
        record {
          after = with_effects p' (set_up bev (server_side i) ∷ connect_to bev s_addr ∷ []);
          ends = elim_some _ _ there ∙ elim_none _ _ has_none;
          sound = put_pair-IsSound hash p i pair with_conn sound there refl;
          linked =
              link-put_pair hash p k i pair with_conn sound found there
              ∙ ap (λ v. set_link (link hash p) k (opened bev v)) (sym has_none);
          written = emitted p' _ [] (writes-connected bev i);
        }
  ]

  -- A run goes on from an equal outcome, and to equal links.
  pub Serves-same :
      {p : Proxy hash.Map S} {o o' : Outcome (Proxy hash.Map S)} {links links' : Links}
      {traffic : List (ℕ × List ℕ)}
      → o' ≡ o
      → links ≡ links'
      → Serves p o links traffic
      → Serves p o' links' traffic
  Serves-same same linked run = record {
    after = run.after;
    ends = same ∙ run.ends;
    sound = run.sound;
    linked = run.linked ∙ linked;
    written = run.written;
  }

  -- A message for an id that nothing is known of.
  nothing_done : (p : Proxy hash.Map S) → IsSound hash p → Serves p (ok p) (link hash p) []
  nothing_done p sound = record {
    after = p;
    ends = refl;
    sound = sound;
    linked = refl;
    written = no_writes p;
  }

  connect_new :
      (bev k : ℕ) (p : Proxy hash.Map S)
      → IsSound hash p
      → hash.find p.hash_map k ≡ none
      → Serves p
          (connect_pair hash (opens bev) (add_pair hash p (new_pair k)) (length p.pairs))
          (set_link (link hash p) k (some bev))
          []
  unfolding add_pair
  connect_new bev k p sound fresh =
      let p' = add_pair hash p (new_pair k) in
      let found = hash.find-add p.hash_map k (length p.pairs) fresh in
      let run =
        connect_pair-Serves bev k (length p.pairs) p' (new_pair k)
          (add_pair-IsSound hash p (new_pair k) sound fresh) found
          (pair_at-length p.pairs (new_pair k)) in
      record {
        after = run.after;
        ends = run.ends;
        sound = run.sound;
        linked =
            run.linked
            ∙ ap (λ links. set_link links k (some bev))
                (link-add_pair hash p (new_pair k) sound fresh)
            ∙ set_link_twice (link hash p) k none (some bev);
        written = run.written;
      }

  pub do_action_connect-Serves :
      (bev k : ℕ) (p : Proxy hash.Map S) (mem : List ℕ)
      → IsSound hash p
      → read_connection_id mem ≡ ok k
      → Serves p
          (do_action_connect hash (opens bev) p mem)
          (set_link (link hash p) k (opened bev (link hash p k)))
          []
  unfolding do_action_connect
  do_action_connect-Serves bev k p mem sound id = elim (Option-cases (hash.find p.hash_map k)) [
    | inl missing ↦
        Serves-same ((>>=-ok _ id) ∙ elim_none _ _ missing)
          (ap (λ v. set_link (link hash p) k (opened bev v)) (sym (link_missing hash p k missing)))
          (connect_new bev k p sound missing)
    | inr (i, found) ↦
        let (pair, there, key) = sound k i found in
        Serves-same ((>>=-ok _ id) ∙ elim_some _ _ found)
          (ap (λ v. set_link (link hash p) k (opened bev v))
            (sym (link_found hash p k i pair found there)))
          (connect_pair-Serves bev k i p pair sound found there)
  ]

  pub do_action_send-Serves :
      (k : ℕ) (p : Proxy hash.Map S) (mem bytes : List ℕ)
      → IsSound hash p
      → read_connection_id mem ≡ ok k
      → read_data_size mem ≡ ok (length bytes)
      → copied (length bytes) (drop 64 mem) ≡ ok bytes
      → Serves p (do_action_send hash p mem) (link hash p) (sent_on (link hash p k) bytes)
  unfolding do_action_send link
  do_action_send-Serves k p mem bytes sound id size body =
      elim (Option-cases (hash.find p.hash_map k)) [
        | inl missing ↦
            subst (λ v. Serves p (do_action_send hash p mem) (link hash p) (sent_on v bytes))
              (sym (link_missing hash p k missing))
              (Serves-same ((>>=-ok _ id) ∙ elim_none _ _ missing) refl (nothing_done p sound))
        | inr (i, found) ↦
            let (pair, there, key) = sound k i found in
            let sees : link hash p k ≡ pair.p_s = link_found hash p k i pair found there in
            elim (Option-cases pair.p_s) [
              | inl has_none ↦
                  subst (λ v. Serves p (do_action_send hash p mem) (link hash p) (sent_on v bytes))
                    (sym (sees ∙ has_none))
                    (Serves-same
                      (>>=-ok _ id
                        ∙ elim_some _ _ found
                        ∙ elim_some _ _ there
                        ∙ elim_none _ _ has_none)
                      refl (nothing_done p sound))
              | inr (bev, has) ↦
                  subst (λ v. Serves p (do_action_send hash p mem) (link hash p) (sent_on v bytes))
                    (sym (sees ∙ has))
                    record {
                      after = with_effects p (write_bytes bev bytes ∷ []);
                      ends =
                          >>=-ok _ id
                          ∙ elim_some _ _ found
                          ∙ elim_some _ _ there
                          ∙ elim_some _ _ has
                          ∙ >>=-ok _ size
                          ∙ >>=-ok _ body;
                      sound = sound;
                      linked = refl;
                      written = emitted p _ ((bev, bytes) ∷ []) (writes-sent bev bytes);
                    }
            ]
      ]

  pub do_action_close-Serves :
      (k : ℕ) (p : Proxy hash.Map S) (mem : List ℕ)
      → IsSound hash p
      → read_connection_id mem ≡ ok k
      → Serves p (do_action_close hash p mem) (set_link (link hash p) k none) []
  unfolding do_action_close link
  do_action_close-Serves k p mem sound id = elim (Option-cases (hash.find p.hash_map k)) [
    | inl missing ↦
        Serves-same (>>=-ok _ id ∙ elim_none _ _ missing)
          (sym (set_link_same (link hash p) k none (link_missing hash p k missing)))
          (nothing_done p sound)
    | inr (i, found) ↦
        let (pair, there, key) = sound k i found in
        let closed = record pair { p_s = none; p_c = none } in
        let p' = put_pair p i closed in
        record {
          after = with_effects p' (freed pair.p_s ++ freed pair.p_c);
          ends = >>=-ok _ id ∙ elim_some _ _ found ∙ elim_some _ _ there;
          sound = put_pair-IsSound hash p i pair closed sound there refl;
          linked = link-put_pair hash p k i pair closed sound found there;
          written = emitted p' _ [] (writes-freed pair.p_s pair.p_c);
        }
  ]
