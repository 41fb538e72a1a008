-- ===== src/Peers/Reconnect.antt =====
-- When PeerClient (node/p2p.py) gives a peer up, and to whom it sends.
use arche_blockchain.Prelude.{
  ◌≡◌, refl, Bool, true, false, List, [], ◌∷◌, leb, arith, Text, ap, Bool-cases, inl, inr, not,
  if◌then◌else◌,
}
use arche_blockchain.Dict.{Dict}
use arche_blockchain.Peers.Outbound.{
  Conn, SocketEvent, refused, replied, arrived, lost, ban_threshold, note_failure, greet,
  accepts_reply, Reply, wants_socket, conn_step, run_conn, send, send_each, PeerClient, broadcast,
  active_keys, active_peers,
}

-- A peer is banned exactly when its failures in a row reach the threshold, and has no socket then.
pub record IsCounted (c : Conn) : Type 0 where
  pub counted : c.banned ≡ leb ban_threshold c.fail_count
  pub closed : c.banned ≡ true → c.connected ≡ false

note_failure-IsCounted : (c : Conn) → IsCounted c → IsCounted (note_failure c)
unfolding note_failure ban_threshold
note_failure-IsCounted c h = record { counted = (ground (arith, h.counted)); closed = λ b. refl }

wants-free : (c : Conn) → wants_socket c ≡ true → c.banned ≡ false
unfolding wants_socket
wants-free c vacant = ground (arith, vacant)

greet-IsCounted :
    (reply : Reply) (c : Conn) → c.banned ≡ false → IsCounted c → IsCounted (greet reply c)
unfolding greet ban_threshold
greet-IsCounted reply c free h = elim (Bool-cases (accepts_reply reply c)) [
  | inl good ↦
      rw good record { counted = (ground (arith, free)); closed = λ b. ground (arith, free, b) }
  | inr bad ↦ rw bad (note_failure-IsCounted c h)
]

step-IsCounted : (e : SocketEvent) (c : Conn) → IsCounted c → IsCounted (conn_step e c).0
unfolding conn_step
step-IsCounted refused c h = elim (Bool-cases (wants_socket c)) [
  | inl vacant ↦ rw vacant (note_failure-IsCounted c h)
  | inr idle ↦ rw idle h
]
step-IsCounted (replied reply) c h = elim (Bool-cases (wants_socket c)) [
  | inl vacant ↦ rw vacant (greet-IsCounted reply c (wants-free c vacant) h)
  | inr idle ↦ rw idle h
]
step-IsCounted (arrived msg) c h = h
step-IsCounted lost c h = record { counted = h.counted; closed = λ b. refl }

-- Whatever happens on the socket of a peer, it is banned exactly when its failures in a row reach
-- five, and a banned peer has no socket.
run_conn-IsCounted : (es : List SocketEvent) (c : Conn) → IsCounted c → IsCounted (run_conn es c).0
unfolding run_conn
run_conn-IsCounted [] c h = h
run_conn-IsCounted (e ∷ es) c h = run_conn-IsCounted es (conn_step e c).0 (step-IsCounted e c h)

-- The keys that pass a test, in order.
abbrev those : (Text → Bool) → List Text → List Text
those test [] = []
those test (k ∷ ks) = if test k then k ∷ those test ks else those test ks

send_each_active :
    (works : Text → Bool) (peers : Dict Text Conn)
    → (send_each (λ (c : Conn). not c.banned) works peers).1 ≡ those works (active_keys peers)
unfolding send_each active_keys send
send_each_active works [] = refl
send_each_active works ((key, c) ∷ peers) =
    let rest = send_each_active works peers in
    elim (Bool-cases c.banned) [
      | inl out ↦ rw out rest
      | inr free ↦ elim (Bool-cases c.connected) [
        | inl up ↦ elim (Bool-cases (works key)) [
          | inl good ↦ rw (free, up, good) (ap (λ (ks : List Text). key ∷ ks) rest)
          | inr bad ↦ rw (free, up, bad) rest
        ]
        | inr down ↦ rw (free, down) rest
      ]
    ]

-- A broadcast reaches the active peers whose sockets take the message, in order, and no other.
broadcast_reaches :
    (works : Text → Bool) (client : PeerClient)
    → (broadcast works client).1 ≡ those works (active_peers client)
unfolding broadcast active_peers
broadcast_reaches works client = send_each_active works client.peers
