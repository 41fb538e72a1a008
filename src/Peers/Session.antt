-- ===== src/Peers/Session.antt =====
-- node/p2p.py: PeerServer, from the acceptance of a connection to the end of its messages. The
-- socket is the list of the messages that arrive, with their times, until the connection ends.
use arche_blockchain.Prelude.{
  ℕ, suc, ◌+◌, ◌-◌, Bool, true, false, not, ◌&&◌, Option, none, some, List, [], ◌∷◌, ◌++◌, any,
  drop, length, leb, ltb, Text, codes, ◌==◌, if◌then◌else◌, nat_eq, text_eq,
}
use arche_blockchain.Int.{ℤ, pos, ltb_ℤ}
use arche_blockchain.Encoding.{Bytes, from_hex}
use arche_blockchain.Float.{Float}
use arche_blockchain.Peers.{RateLimiter, check, cleanup}

unfoldable pub max_inbound_connections : ℕ
max_inbound_connections = 125

unfoldable pub protocol_version : ℤ
protocol_version = pos 2

-- A message: its type, its `inv_id`, and the rest of it, which the server does not read.
pub record Message : Type 0 where
  pub kind : Text
  pub inv_id : Option Text
  pub body : Text

pub record Hello : Type 0 where
  pub kind : Text
  pub magic : Text
  pub version : ℤ
  pub listen_port : ℕ

pub record PeerServer (W : Type 0) : Type 0 where
  pub network_magic : Bytes
  pub seen : List Text
  pub inbound_count : ℕ
  pub banned : List Text
  pub limiter : RateLimiter W

-- The messages handed to the node, and the number of PONGs sent.
pub record Traffic : Type 0 where
  pub delivered : List Message
  pub pongs : ℕ

-- `x in s` of a set
unfoldable pub is_member : Text → List Text → Bool
is_member x xs = any (λ y. y == x) xs

-- `s.add(x)` of a set
unfoldable pub add_member : Text → List Text → List Text
add_member x xs = if is_member x xs then xs else x ∷ xs

-- The set of seen ids after a new one. `listing` is the order in which Python lists a set.
unfoldable pub note_seen : (List Text → List Text) → Text → List Text → List Text
note_seen listing id seen =
    let grown = add_member id seen in
    if ltb 50000 (length grown) then drop 25000 (listing grown) else grown

module _ {W : Type 0} where
  unfoldable pub is_banned : Text → PeerServer W → Bool
  is_banned ip server = is_member ip server.banned

  unfoldable pub ban_ip : Text → PeerServer W → PeerServer W
  ban_ip ip server = record server { banned = add_member ip server.banned }

  -- One round of the accept loop, and whether the connection is kept.
  unfoldable pub accept : Text → PeerServer W → PeerServer W × Bool
  accept ip server =
      if is_banned ip server
      then (server, false)
      else if leb max_inbound_connections server.inbound_count
      then (server, false)
      else (record server { inbound_count = suc server.inbound_count }, true)

  -- Whether the handshake goes on. A magic that is no hexadecimal text raises, which ends it too.
  unfoldable pub accepts_hello : Hello → PeerServer W → Bool
  accepts_hello hello server =
      hello.kind == codes "HELLO"
      && (elim (from_hex hello.magic) [ none ↦ false | some m ↦ m == server.network_magic ])
      && not (ltb_ℤ hello.version protocol_version)

  -- A message that is neither PING nor PONG: delivered unless its id was seen.
  unfoldable pub deliver :
      (List Text → List Text) → Message → PeerServer W → Traffic → PeerServer W × Traffic
  deliver listing msg server traffic = elim msg.inv_id [
    | none ↦ (server, record traffic { delivered = traffic.delivered ++ (msg ∷ []) })
    | some id ↦
        if length id == 0
        then (server, record traffic { delivered = traffic.delivered ++ (msg ∷ []) })
        else if is_member id server.seen
        then (server, traffic)
        else (
          record server { seen = note_seen listing id server.seen },
          record traffic { delivered = traffic.delivered ++ (msg ∷ []) },
        )
  ]

  -- What a message within the rate limit does.
  unfoldable pub answer :
      (List Text → List Text) → Message → PeerServer W → Traffic → PeerServer W × Traffic
  answer listing msg server traffic =
      if msg.kind == codes "PING"
      then (server, record traffic { pongs = suc traffic.pongs })
      else if msg.kind == codes "PONG"
      then (server, traffic)
      else deliver listing msg server traffic

  -- What a message past the rate limit does, before the loop ends.
  unfoldable pub punish : Text → ℕ → PeerServer W → PeerServer W
  punish ip misbehavior server = if leb 100 misbehavior then ban_ip ip server else server

module _ {W : Type 0} ⦃fl : Float W⦄ where
  -- The loop over the messages. `misbehavior` is its counter.
  unfoldable pub read_loop :
      (List Text → List Text)
      → Text
      → ℕ
      → List (W × Message)
      → PeerServer W
      → Traffic
      → PeerServer W × Traffic
  read_loop listing ip misbehavior [] server traffic = (server, traffic)
  read_loop listing ip misbehavior ((now, msg) ∷ msgs) server traffic =
      let (limiter, within) = check now ip server.limiter in
      let counted : PeerServer W = record server { limiter = limiter } in
      let (answered, sent) = answer listing msg counted traffic in
      let rest = read_loop listing ip misbehavior msgs answered sent in
      if not within then (punish ip (misbehavior + 10) counted, traffic) else rest

  -- `_handle`, for a connection that was accepted and its first message.
  unfoldable pub handle :
      (List Text → List Text)
      → Text
      → Hello
      → List (W × Message)
      → PeerServer W
      → PeerServer W × Traffic
  handle listing ip hello msgs server =
      let silent : Traffic = record { delivered = []; pongs = 0 } in
      let (served, traffic) =
        if accepts_hello hello server
        then read_loop listing ip 0 msgs server silent
        else (server, silent) in
      let cleaned =
        if accepts_hello hello server then cleanup ip served.limiter else served.limiter in
      (record served { limiter = cleaned; inbound_count = served.inbound_count - 1 }, traffic)
