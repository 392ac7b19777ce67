-- ===== src/Net/Accepts.antt =====
-- The server side of src/kernel/net.c: from a SYN to `net_tcp_accept`.
use sistem_operasi.Base.{
  ℕ, ◌+◌, ◌-◌, ◌%◌, ◌<◌, ◌≡◌, ◌≢◌, ◌^◌, refl, sym, ap, ◌∙◌, true, false, not, some, List, [], ◌∷◌,
  ◌++◌, ℤ, pos, minus_one, length, get_or, set, arith, ltb, leb, ◌==◌, ◌&&◌, find_index,
  find_index-some, get_or-modify_self, get_or-modify_ne, length-modify, get_or-set_self,
  get_or-set_ne, length-set, length-append, ==_refl,
}
use sistem_operasi.Net.{TcpState, Conn, Listen, State, conn_at, free_conn, meq}
use sistem_operasi.Net.Segment.{Segment, tcp_tx}
use sistem_operasi.Net.Receive.{
  accepted, enqueue, accept_syn, free_listen, listen_at, receive_syn, is_for,
}
use sistem_operasi.Net.Calls.{accept_poll}

-- The accept queue holds the numbers `q`, oldest first.
abbrev pub Entries : Listen → List ℤ → Type 0
Entries l [] = l.aq_tail ≡ l.aq_head
Entries l (x ∷ []) = (l.aq_tail ≡ (l.aq_head + 1) % 2) × (get_or l.accept_q l.aq_head minus_one ≡ x)
Entries l (x ∷ y ∷ r) =
    (l.aq_tail ≡ l.aq_head)
    × (get_or l.accept_q l.aq_head minus_one ≡ x)
    × (get_or l.accept_q ((l.aq_head + 1) % 2) minus_one ≡ y)
    × (r ≡ [])

pub record Queues (l : Listen) (q : List ℤ) : Type 0 where
  pub places : length l.accept_q ≡ 2
  pub head_in : l.aq_head < 2
  pub count : l.aq_count ≡ length q
  pub entries : Entries l q

-- A connection joins the queue at its end.
enqueue-Entries :
    (ci : ℕ) (l : Listen) (q : List ℤ)
    → Queues l q
    → length q < 2
    → Entries (enqueue ci l) (q ++ (pos ci ∷ []))
enqueue-Entries ci l [] h room = (
  ap (λ t. (t + 1) % 2) h.entries,
  ap (λ t. get_or (set l.accept_q t (pos ci)) l.aq_head minus_one) h.entries
      ∙ get_or-set_self l.accept_q l.aq_head (pos ci) minus_one
          (omega (arith, h.places, h.head_in)),
)
enqueue-Entries ci l (x ∷ []) h room = (
  omega (arith, h.entries, h.head_in),
  get_or-set_ne l.accept_q l.aq_tail l.aq_head (pos ci) minus_one
        (λ e. omega (arith, e, h.entries, h.head_in))
      ∙ h.entries.1,
  ap (λ t. get_or (set l.accept_q t (pos ci)) ((l.aq_head + 1) % 2) minus_one) h.entries.0
      ∙ get_or-set_self l.accept_q ((l.aq_head + 1) % 2) (pos ci) minus_one
          (omega (arith, h.places)),
  refl,
)
enqueue-Entries ci l (x ∷ y ∷ r) h room = absurd (omega arith)

enqueue-Queues :
    (ci : ℕ) (l : Listen) (q : List ℤ)
    → Queues l q
    → length q < 2
    → Queues (enqueue ci l) (q ++ (pos ci ∷ []))
enqueue-Queues ci l q h room = record {
  places = length-set l.accept_q l.aq_tail (pos ci) ∙ h.places;
  head_in = h.head_in;
  count = omega (arith, h.count, length-append q (pos ci ∷ []));
  entries = enqueue-Entries ci l q h room;
}

-- The oldest connection leaves.
abbrev pub dequeued : Listen → Listen
dequeued l = record l { aq_head = (l.aq_head + 1) % 2; aq_count = l.aq_count - 1 }

dequeue-Entries :
    (l : Listen) (x : ℤ) (q : List ℤ)
    → Queues l (x ∷ q)
    → (get_or l.accept_q l.aq_head minus_one ≡ x) × Entries (dequeued l) q
dequeue-Entries l x [] h = (h.entries.1, h.entries.0)
dequeue-Entries l x (y ∷ []) h = (h.entries.1, (omega (arith, h.entries, h.head_in), h.entries.2))
dequeue-Entries l x (y ∷ z ∷ r) h = cc (h.entries.3)

dequeue-Queues : (l : Listen) (x : ℤ) (q : List ℤ) → Queues l (x ∷ q) → Queues (dequeued l) q
dequeue-Queues l x q h = record {
  places = h.places;
  head_in = omega arith;
  count = omega (arith, h.count);
  entries = (dequeue-Entries l x q h).1;
}

accept_poll-Queues :
    (s : State) (li : ℕ) (x : ℤ) (q : List ℤ)
    → li < length s.listens
    → Queues (listen_at s li) (x ∷ q)
    → let (s', id) = accept_poll li s in (id ≡ some x) × Queues (listen_at s' li) q
unfolding accept_poll
accept_poll-Queues s li x q in_range h =
    let some_wait : ltb 0 (listen_at s li).aq_count ≡ true = ground (arith, h.count) in
    let same =
      get_or-modify_self s.listens li (λ _. dequeued (listen_at s li)) free_listen in_range in
    rw some_wait (
      ap some (dequeue-Entries (listen_at s li) x q h).0,
      rw same (dequeue-Queues (listen_at s li) x q h),
    )

meq_refl : (xs : List ℕ) → meq xs xs ≡ true
unfolding meq
meq_refl [] = refl
meq_refl (x ∷ xs) = rw (==_refl x) (meq_refl xs)

-- Another segment with the addresses and ports of `g`.
abbrev pub SamePeer : Segment → Segment → Type 0
SamePeer g h =
    (h.src_ip ≡ g.src_ip) × (h.remote_port ≡ g.remote_port) × (h.local_port ≡ g.local_port)

receive_syn-eq :
    (now : ℕ) (g : Segment) (s : State) (li ci : ℕ)
    → find_index (λ (l : Listen). l.active && l.port == g.local_port) s.listens ≡ some li
    → find_index (λ (c : Conn). not c.used) s.conns ≡ some ci
    → (listen_at s li).aq_count < 2
    → receive_syn now g s ≡ accept_syn now g li ci s
unfolding receive_syn
receive_syn-eq now g s li ci fl fc room =
    let open_place : leb 2 (listen_at s li).aq_count ≡ false = ground arith in
    rw (fl, receive_syn, open_place, fc) refl

-- What the slot holds after `accept_syn`, and what the other slots hold.
accept_syn-conn :
    (now : ℕ) (g : Segment) (s : State) (li ci : ℕ)
    → ci < length s.conns
    → conn_at (accept_syn now g li ci s) ci
      ≡ record (accepted now g (conn_at s ci)) { snd_nxt = 0xAC000002 }
unfolding accept_syn tcp_tx
accept_syn-conn now g s li ci h =
    get_or-modify_self s.conns ci
      (λ _. record (accepted now g (conn_at s ci)) { snd_nxt = 0xAC000002 }) free_conn h

accept_syn-others :
    (now : ℕ) (g : Segment) (s : State) (li ci j : ℕ)
    → ci ≢ j
    → conn_at (accept_syn now g li ci s) j ≡ conn_at s j
unfolding accept_syn tcp_tx
accept_syn-others now g s li ci j ne =
    get_or-modify_ne s.conns ci j
      (λ _. record (accepted now g (conn_at s ci)) { snd_nxt = 0xAC000002 }) free_conn ne

accept_syn-Queues :
    (now : ℕ) (g : Segment) (s : State) (li ci : ℕ) (q : List ℤ)
    → li < length s.listens
    → Queues (listen_at s li) q
    → length q < 2
    → Queues (listen_at (accept_syn now g li ci s) li) (q ++ (pos ci ∷ []))
unfolding accept_syn tcp_tx
accept_syn-Queues now g s li ci q h w room =
    let same = get_or-modify_self s.listens li (enqueue ci) free_listen h in
    rw same (enqueue-Queues ci (listen_at s li) q w room)

accept_syn-listens :
    (now : ℕ) (g : Segment) (s : State) (li ci : ℕ)
    → li < length s.listens
    → li < length (accept_syn now g li ci s).listens
unfolding accept_syn tcp_tx
accept_syn-listens now g s li ci h = rw (length-modify s.listens li (enqueue ci)) h

-- A queue to which a connection has just come gives its oldest one.
accept_poll-first :
    (s : State) (li : ℕ) (q : List ℤ) (ci : ℕ)
    → li < length s.listens
    → Queues (listen_at s li) (q ++ (pos ci ∷ []))
    → (accept_poll li s).1 ≡ some (get_or (q ++ (pos ci ∷ [])) 0 minus_one)
accept_poll-first s li [] ci h w = (accept_poll-Queues s li (pos ci) [] h w).0
accept_poll-first s li (x ∷ q) ci h w = (accept_poll-Queues s li x (q ++ (pos ci ∷ [])) h w).0

-- The connection made from `g` is the one for `later`.
accepted-is_for :
    (now n : ℕ) (g later : Segment) (c : Conn)
    → SamePeer g later
    → is_for later (record (accepted now g c) { snd_nxt = n }) ≡ true
accepted-is_for now n g later c (ip, remote, local) =
    rw (ip, remote, local, ==_refl g.local_port, ==_refl g.remote_port, meq_refl g.src_ip) refl

-- A SYN to a port with a listener whose queue has room, while a connection is free: that connection is
-- established with the sender's addresses, so that the sender's further segments are for it, expects
-- the byte behind the SYN and has an empty buffer; the other connections stay, and its number joins the
-- queue of the listener at the end, from which `net_tcp_accept` takes the oldest.
pub receive_syn-accepts :
    (now : ℕ) (g later : Segment) (s : State) (li ci j : ℕ) (q : List ℤ)
    → find_index (λ (l : Listen). l.active && l.port == g.local_port) s.listens ≡ some li
    → find_index (λ (c : Conn). not c.used) s.conns ≡ some ci
    → Queues (listen_at s li) q
    → length q < 2
    → SamePeer g later
    → ci ≢ j
    → let s' = receive_syn now g s in
      let c = conn_at s' ci in
      (is_for later c ≡ true)
      × (c.state ≡ TcpState.established)
      × (c.rcv_nxt ≡ (g.seq + 1) % 2 ^ 32)
      × (c.rx.head ≡ c.rx.tail)
      × (conn_at s' j ≡ conn_at s j)
      × Queues (listen_at s' li) (q ++ (pos ci ∷ []))
      × ((accept_poll li s').1 ≡ some (get_or (q ++ (pos ci ∷ [])) 0 minus_one))
receive_syn-accepts now g later s li ci j q fl fc w room peer ne =
    let run = receive_syn-eq now g s li ci fl fc (omega (arith, w.count)) in
    let (li_in, _) =
      find_index-some (λ (l : Listen). l.active && l.port == g.local_port) free_listen s.listens li
        fl in
    let (ci_in, _) = find_index-some (λ (c : Conn). not c.used) free_conn s.conns ci fc in
    let s' : State = accept_syn now g li ci s in
    let here = accept_syn-conn now g s li ci ci_in in
    let queued = accept_syn-Queues now g s li ci q li_in w room in
    let listens_in : li < length s'.listens = accept_syn-listens now g s li ci li_in in
    let old = accept_poll-first s' li q ci listens_in queued in
    rw run (
      rw here (accepted-is_for now 0xAC000002 g later (conn_at s ci) peer),
      ap (λ (c : Conn). c.state) here,
      ap (λ (c : Conn). c.rcv_nxt) here,
      ap (λ (c : Conn). c.rx.head) here ∙ sym (ap (λ (c : Conn). c.rx.tail) here),
      accept_syn-others now g s li ci j ne,
      queued,
      old,
    )
