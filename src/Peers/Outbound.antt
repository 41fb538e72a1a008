-- ===== src/Peers/Outbound.antt =====
-- node/p2p.py: the connections that a node opens, _Conn, and PeerClient, which keeps them. The socket
-- is what happens on it: an attempt that fails or a reply, a message that arrives, the end.
use arche_blockchain.Prelude.{
  ℕ, suc, Bool, true, false, not, ◌&&◌, none, some, List, [], ◌∷◌, ◌++◌, leb, Text, codes, ◌==◌,
  if◌then◌else◌, text_eq,
}
use arche_blockchain.Dict
use arche_blockchain.Dict.{Dict, contains}
use arche_blockchain.Encoding.{Bytes, from_hex, str}
use arche_blockchain.Peers.Session.{Message}

unfoldable pub ban_threshold : ℕ
ban_threshold = 5

-- `_Conn`. `connected` tells whether `_sock` is set.
pub record Conn : Type 0 where
  pub host : Text
  pub port : ℕ
  pub my_listen_port : ℕ
  pub network_magic : Bytes
  pub connected : Bool
  pub fail_count : ℕ
  pub banned : Bool

unfoldable pub conn_key : Text → ℕ → Text
conn_key host port = host ++ (codes ":" ++ str port)

-- The first message of the other side.
pub record Reply : Type 0 where
  pub kind : Text
  pub magic : Text

pub data SocketEvent : Type 0 where
  -- The connection or the handshake raises.
  refused : SocketEvent
  replied : Reply → SocketEvent
  arrived : Message → SocketEvent
  lost : SocketEvent

-- The handler of an exception in `_loop`.
unfoldable pub note_failure : Conn → Conn
note_failure c =
    let count = suc c.fail_count in
    record c {
      connected = false;
      fail_count = count;
      banned = if leb ban_threshold count then true else c.banned;
    }

-- Whether the handshake goes on. A magic that is no hexadecimal text raises, which ends it too.
unfoldable pub accepts_reply : Reply → Conn → Bool
accepts_reply reply c =
    reply.kind == codes "HELLO"
    && (elim (from_hex reply.magic) [ none ↦ false | some m ↦ m == c.network_magic ])

unfoldable pub greet : Reply → Conn → Conn
greet reply c =
    if accepts_reply reply c then record c { connected = true; fail_count = 0 } else note_failure c

-- The loop tries to connect while there is no socket, until the peer is banned.
unfoldable pub wants_socket : Conn → Bool
wants_socket c = not c.connected && not c.banned

-- What an event does with the connection, and the messages handed to the node.
unfoldable pub conn_step : SocketEvent → Conn → Conn × List Message
conn_step refused c = (if wants_socket c then note_failure c else c, [])
conn_step (replied reply) c = (if wants_socket c then greet reply c else c, [])
conn_step (arrived msg) c =
    (c, if c.connected && not (msg.kind == codes "PONG") then msg ∷ [] else [])
conn_step lost c = (record c { connected = false }, [])

unfoldable pub run_conn : List SocketEvent → Conn → Conn × List Message
run_conn [] c = (c, [])
run_conn (e ∷ es) c =
    let (next, now) = conn_step e c in let (end, later) = run_conn es next in (end, now ++ later)

-- `send`. `works` tells whether the socket takes the message.
unfoldable pub send : Bool → Conn → Conn × Bool
send works c =
    if not c.connected
    then (c, false)
    else if works
    then (c, true)
    else (record c { connected = false }, false)

-- `PeerClient`
pub record PeerClient : Type 0 where
  pub peers : Dict Text Conn
  pub my_listen_port : ℕ
  pub network_magic : Bytes

unfoldable pub add_peer : Text → ℕ → PeerClient → PeerClient
add_peer host port client =
    let key = conn_key host port in
    if contains key client.peers then client else record client {
      peers =
          Dict.put key
            record {
              host = host;
              port = port;
              my_listen_port = client.my_listen_port;
              network_magic = client.network_magic;
              connected = false;
              fail_count = 0;
              banned = false;
            }
            client.peers;
    }

-- The peers after a message was sent to those that pass the test, and the keys of those that got it.
-- `works` tells of each key whether its socket takes the message.
unfoldable pub send_each :
    (Conn → Bool) → (Text → Bool) → Dict Text Conn → Dict Text Conn × List Text
send_each test works [] = ([], [])
send_each test works ((key, c) ∷ peers) =
    let (others, got) = send_each test works peers in
    if test c
    then ((key, (send (works key) c).0) ∷ others, if (send (works key) c).1 then key ∷ got else got)
    else ((key, c) ∷ others, got)

unfoldable pub broadcast : (Text → Bool) → PeerClient → PeerClient × List Text
broadcast works client =
    let (peers, got) = send_each (λ (c : Conn). not c.banned) works client.peers in
    (record client { peers = peers }, got)

-- One round of `_ping_loop`.
unfoldable pub ping : (Text → Bool) → PeerClient → PeerClient × List Text
ping works client =
    let (peers, got) = send_each (λ (c : Conn). true) works client.peers in
    (record client { peers = peers }, got)

unfoldable pub send_to : Bool → Text → ℕ → PeerClient → PeerClient × Bool
send_to works host port client = elim (Dict.get (conn_key host port) client.peers) [
  | none ↦ (client, false)
  | some c ↦ (
    record client { peers = Dict.put (conn_key host port) (send works c).0 client.peers },
    (send works c).1,
  )
]

unfoldable pub active_keys : Dict Text Conn → List Text
active_keys [] = []
active_keys ((key, c) ∷ peers) =
    let rest = active_keys peers in if not c.banned && c.connected then key ∷ rest else rest

unfoldable pub active_peers : PeerClient → List Text
active_peers client = active_keys client.peers
