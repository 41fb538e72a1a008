-- ===== src/Peers/Examples.antt =====
-- The rate limiter and one session of the peer server, on exact numbers in twentieths.
use arche_blockchain.Prelude.{
  ◌≡◌, ◌≤◌, refl, List, [], ◌∷◌, length, any, text_beq, ◌++◌, Text, codes, some, none, text_eq,
}
use arche_blockchain.Int.{pos, ◌-ℤ◌}
use arche_blockchain.Dict.{get, put}
use arche_blockchain.Encoding.{from_hex, hex_byte, hex_value, is_space, add_byte}
use arche_blockchain.Float.Twentieths.{Twentieths, twentieths_float, Twentieths-IsOrdered}
use arche_blockchain.Peers.{after, times_of, check, new_limiter}
use arche_blockchain.Peers.Limiter.{last_time, passed, passed_bounded}
use arche_blockchain.Peers.Session.{
  Message, Hello, PeerServer, accepts_hello, protocol_version, is_member, note_seen, add_member,
  answer, deliver, handle,
}
use arche_blockchain.Peers.Bans.{answer_all, silent, flood_unpunished}

-- Three messages of one peer and one of another, the first two within one second.
abbrev calls : List (Twentieths × Text)
calls =
    (pos 20, codes "p") ∷ ((pos 30, codes "p") ∷ ((pos 35, codes "q") ∷ ((pos 45, codes "p") ∷ [])))

passed_bounded_example :
    length (after (pos 25) (passed (codes "p") calls (new_limiter 1 (pos 20)))) ≤ 1
unfolding ◌-ℤ◌ last_time
passed_bounded_example =
    passed_bounded 1 (pos 20) (codes "p") (pos 0) calls (refl, (refl, (refl, (refl, tt))))

abbrev server : PeerServer Twentieths
server = record {
  network_magic = 172 ∷ [];
  seen = [];
  inbound_count = 1;
  banned = [];
  limiter = new_limiter 1 (pos 20);
}

abbrev hello : Hello
hello = record { kind = codes "HELLO"; magic = codes "ac"; version = pos 2; listen_port = 8333 }

abbrev first_msg : Message
first_msg = record { kind = codes "NEW_TX"; inv_id = some (codes "i"); body = [] }

abbrev second_msg : Message
second_msg = record { kind = codes "NEW_TX"; inv_id = none; body = [] }

abbrev ids : List Text → List Text
ids texts = texts

-- The third message would be within the limit again.
abbrev tail : List (Twentieths × Message)
tail = (pos 90, second_msg) ∷ []

abbrev start : List (Twentieths × Message)
start = (pos 20, first_msg) ∷ []

flood_unpunished_example :
    ((handle ids (codes "1.2.3.4") hello (start ++ ((pos 21, second_msg) ∷ tail)) server).1
      ≡ (answer_all ids (codes "1.2.3.4") start server silent).1)
    × ((handle ids (codes "1.2.3.4") hello (start ++ ((pos 21, second_msg) ∷ tail)) server).0.banned
        ≡ [])
unfolding accepts_hello check after times_of get put answer deliver text_beq from_hex hex_byte
    hex_value is_space add_byte ◌-ℤ◌ protocol_version is_member note_seen add_member any
flood_unpunished_example =
    flood_unpunished ids (codes "1.2.3.4") hello start tail (pos 21) second_msg server refl
      (refl, tt) refl
