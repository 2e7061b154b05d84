-- ===== src/Rdma/Exclusive/Working.antt =====
-- A client that reads or writes the server's buffer and then speaks: until it does, nothing but its own
-- calls changes the two buffers.
use rdma_project.Common.{
  ◌≡◌, refl, sym, ap, ◌∙◌, subst, List, [], ◌∷◌, ◌++◌, true, Bool, All, append_assoc, append-nil,
}
use mathlib.Core.List.{append_cancel_right}
use rdma_project.Rdma.Verbs.{Op, connect, accept, send, receive, read, write, randomize, clear}
use rdma_project.Rdma.System.{
  System, sends, receives, alone, client_moves, server_moves, meet, meet_swapped,
}
use rdma_project.Rdma.System.Dual.{comm}
use rdma_project.Rdma.Exclusive.{is_access, SendsNext, ReceivesNext, Polite}
use rdma_project.Rdma.Exclusive.Waits.{
  Orderly, Step-Orderly, alone_heard, access_lem, waiting_lem, waits_lem,
}
use rdma_project.Rdma.Exclusive.Copies.{
  Memory, Trace, stay, go_on, ClientEffect, apply, applies, applies-append,
}

access-ClientEffect :
    (op : Op) (m k : Memory) → is_access op ≡ true → ClientEffect op m k → k ≡ apply op m
access-ClientEffect (read l r n) m k e h = h
access-ClientEffect (write l r n) m k e h = h
access-ClientEffect connect m k e h = h
access-ClientEffect accept m k e h = h
access-ClientEffect (send o n) m k e h = h
access-ClientEffect (receive c) m k e h = h
access-ClientEffect (randomize n) m k e h = absurd (cc)
access-ClientEffect (clear n) m k e h = absurd (cc)

abbrev pub IsAccess : Op → Type 0
IsAccess op = is_access op ≡ true

SendsNext-accesses :
    (ops rest : List Op) → All IsAccess ops → SendsNext (comm rest) → SendsNext (comm (ops ++ rest))
SendsNext-accesses [] rest a told = told
SendsNext-accesses (read l r n ∷ ops) rest a told = SendsNext-accesses ops rest a.1 told
SendsNext-accesses (write l r n ∷ ops) rest a told = SendsNext-accesses ops rest a.1 told
SendsNext-accesses (connect ∷ ops) rest a told = absurd (cc (a.0))
SendsNext-accesses (accept ∷ ops) rest a told = absurd (cc (a.0))
SendsNext-accesses (send o n ∷ ops) rest a told = absurd (cc (a.0))
SendsNext-accesses (receive c ∷ ops) rest a told = absurd (cc (a.0))
SendsNext-accesses (randomize n ∷ ops) rest a told = absurd (cc (a.0))
SendsNext-accesses (clear n ∷ ops) rest a told = absurd (cc (a.0))

All-middle :
    (P : Op → Type 0) (xs ys : List Op) (op : Op) (ops : List Op)
    → ops ≡ xs ++ op ∷ ys
    → All P ops
    → P op × All P ys
All-middle P xs ys op ops e a = behind xs (subst (All P) e a)
  where
    behind : (zs : List Op) → All P (zs ++ op ∷ ys) → P op × All P ys
    behind [] b = b
    behind (z ∷ zs) b = behind zs b.1

-- A client that has heard of the server reads or writes, and then speaks.
module _ (s : System) (m : Memory) (ops after : List Op) (orderly : Orderly s)
    (heard : orderly.heard ≡ true) (calls : s.client ≡ ops ++ after) (accesses : All IsAccess ops)
    (told : SendsNext (comm after)) where
  -- Some of the calls are made, with just their effect on the buffers.
  record Working (u : System) (k : Memory) (todo : List Op) : Type 0 where
    made : List Op
    split : ops ≡ made ++ todo
    memory : k ≡ applies made m
    now : Orderly u
    heard_now : now.heard ≡ true

  -- The next call of those that are left is one of `ops`, and what is left leads to the message.
  next_access :
      {u : System} {k : Memory} (op : Op) (todo : List Op)
      → Working u k (op ∷ todo)
      → IsAccess op × All IsAccess todo
  next_access op todo w = All-middle IsAccess w.made todo op ops w.split accesses

  behind : (made todo : List Op) → ops ≡ made ++ todo → All IsAccess todo
  behind made todo e = tails made (subst (All IsAccess) e accesses)
    where
      tails : (xs : List Op) → All IsAccess (xs ++ todo) → All IsAccess todo
      tails [] a = a
      tails (x ∷ xs) a = tails xs a.1

  server_is_waited_for :
      {u : System} {k : Memory} (todo : List Op)
      → u.client ≡ todo ++ after
      → (w : Working u k todo) → ReceivesNext (comm u.server)
  server_is_waited_for todo e w = waits_lem w.now w.heard_now (
      subst (λ p. SendsNext (comm p)) (sym e)
        (SendsNext-accesses todo after (behind w.made todo w.split) told))

  working :
      {u : System} {k : Memory} (todo : List Op)
      → Trace s m u k
      → u.client ≡ todo ++ after
      → Working u k todo
  working todo stay e = record {
    made = [];
    split = append_cancel_right ops todo after (sym calls ∙ e);
    memory = refl;
    now = orderly;
    heard_now = heard;
  }
  working todo (go_on r (client_moves (sends o n e eo ea) f) h) next_calls = absurd (
      cc
        ((next_access _ todo (working (send o n ∷ todo) r (e ∙ ap (◌∷◌ (send o n)) next_calls))).0))
  working todo (go_on r (client_moves (receives c n e eo ea le) f) h) next_calls = absurd (
      cc (
        (next_access _ todo
          (working (receive c ∷ todo) r (e ∙ ap (◌∷◌ (receive c)) next_calls))).0))
  working todo (go_on {t} {u} {k} {l} r (client_moves (alone op is e eo ea) f) h) next_calls =
      let w = working (op ∷ todo) r (e ∙ ap (◌∷◌ op) next_calls) in
      record {
        made = w.made ++ op ∷ [];
        split = w.split ∙ sym (append_assoc w.made (op ∷ []) todo);
        memory =
            access-ClientEffect op k l (next_access op todo w).0 h
            ∙ ap (apply op) w.memory
            ∙ sym (applies-append w.made (op ∷ []) m);
        now = Step-Orderly (client_moves (alone op is e eo ea) f) w.now;
        heard_now = alone_heard op is e eo ea f w.now ∙ w.heard_now;
      }
  working todo (go_on {t} {u} r (server_moves v f) h) next_calls =
      let w = working todo r (sym f ∙ next_calls) in
      absurd (
        waiting_lem v w.now.guarded (server_is_waited_for todo (sym f ∙ next_calls) w)
          (w.now.settled w.heard_now))
  working todo (go_on r (meet ec es eo ei) h) next_calls =
      absurd (
        cc ((next_access _ todo (working (connect ∷ todo) r (ec ∙ ap (◌∷◌ connect) next_calls))).0))
  working todo (go_on r (meet_swapped ec es eo ei) h) next_calls =
      absurd
        (cc ((next_access _ todo (working (accept ∷ todo) r (ec ∙ ap (◌∷◌ accept) next_calls))).0))

  -- When all of the calls are made, their effect is that of the calls alone.
  pub all_made : {u : System} {k : Memory} → Trace s m u k → u.client ≡ after → k ≡ applies ops m
  all_made r e =
      let w = working [] r e in
      w.memory ∙ ap (λ made. applies made m) (sym (append-nil w.made) ∙ sym w.split)

pub heard_lem :
    (h : Bool) (xs : List Op) (op : Op) (rest : List Op)
    → All IsAccess (xs ++ op ∷ [])
    → Polite h ((xs ++ op ∷ []) ++ rest)
    → h ≡ true
heard_lem h [] op rest a polite = (access_lem h op rest a.0 polite).0
heard_lem h (x ∷ xs) op rest a polite = (access_lem h x ((xs ++ op ∷ []) ++ rest) a.0 polite).0
