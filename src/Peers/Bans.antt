-- ===== src/Peers/Bans.antt =====
-- The bans of the peer server of node/p2p.py.
use arche_blockchain.Prelude.{
  ◌≡◌, refl, ap, true, false, List, [], ◌∷◌, ◌++◌, Text, Bool-cases, inl, inr, arith, ◌∙◌,
}
use arche_blockchain.Float.{Float}
use arche_blockchain.Peers.{check}
use arche_blockchain.Peers.Session.{
  Message, Hello, PeerServer, Traffic, answer, deliver, punish, accepts_hello, read_loop, handle,
}

abbrev pub silent : Traffic
silent = record { delivered = []; pongs = 0 }

module _ {W : Type 0} where
  answer_banned :
      (listing : List Text → List Text) (msg : Message) (server : PeerServer W) (traffic : Traffic)
      → (answer listing msg server traffic).0.banned ≡ server.banned
  unfolding answer deliver
  answer_banned listing msg server traffic = ground arith

module _ {W : Type 0} ⦃fl : Float W⦄ where
  read_loop_banned :
      (listing : List Text → List Text) (ip : Text) (msgs : List (W × Message))
      (server : PeerServer W) (traffic : Traffic)
      → (read_loop listing ip 0 msgs server traffic).0.banned ≡ server.banned
  unfolding read_loop punish
  read_loop_banned listing ip [] server traffic = refl
  read_loop_banned listing ip ((now, msg) ∷ msgs) server traffic =
      elim (Bool-cases (check now ip server.limiter).1) [
        | inr past ↦ rw past refl
        | inl within ↦ rw within (
            read_loop_banned listing ip msgs _ _
            ∙ answer_banned listing msg record server { limiter = (check now ip server.limiter).0 }
                traffic)
      ]

  -- However many messages a connection sends, and however fast: the server bans nobody for it.
  handle_banned :
      (listing : List Text → List Text) (ip : Text) (hello : Hello) (msgs : List (W × Message))
      (server : PeerServer W)
      → (handle listing ip hello msgs server).0.banned ≡ server.banned
  unfolding handle
  handle_banned listing ip hello msgs server = elim (Bool-cases (accepts_hello hello server)) [
    | inl greeted ↦ rw greeted (read_loop_banned listing ip msgs server _)
    | inr refused ↦ rw refused refl
  ]

  -- The server after the limiter has noted a message.
  abbrev pub noted : W → Text → PeerServer W → PeerServer W
  noted now ip server = record server { limiter = (check now ip server.limiter).0 }

  -- What the server makes of messages that it answers one after the other.
  abbrev pub answer_all :
      (List Text → List Text)
      → Text
      → List (W × Message)
      → PeerServer W
      → Traffic
      → PeerServer W × Traffic
  answer_all listing ip [] server traffic = (server, traffic)
  answer_all listing ip ((now, msg) ∷ msgs) server traffic =
      let next = answer listing msg (noted now ip server) traffic in
      answer_all listing ip msgs next.0 next.1

  -- Each of the messages comes within the rate limit.
  abbrev pub AllWithin :
      (List Text → List Text) → Text → List (W × Message) → PeerServer W → Traffic → Type 0
  AllWithin listing ip [] server traffic = Unit
  AllWithin listing ip ((now, msg) ∷ msgs) server traffic =
      let next = answer listing msg (noted now ip server) traffic in
      ((check now ip server.limiter).1 ≡ true) × AllWithin listing ip msgs next.0 next.1

  read_loop_cut :
      (listing : List Text → List Text) (ip : Text) (before after : List (W × Message)) (now : W)
      (msg : Message) (server : PeerServer W) (traffic : Traffic)
      → AllWithin listing ip before server traffic
      → (check now ip (answer_all listing ip before server traffic).0.limiter).1 ≡ false
      → read_loop listing ip 0 (before ++ ((now, msg) ∷ after)) server traffic ≡ (
        noted now ip (answer_all listing ip before server traffic).0,
        (answer_all listing ip before server traffic).1,
      )
  unfolding read_loop punish
  read_loop_cut listing ip [] after now msg server traffic within past = rw past refl
  read_loop_cut listing ip ((then_now, first) ∷ before) after now msg server traffic (ok, within)
        past =
      rw ok (read_loop_cut listing ip before after now msg _ _ within past)

  -- A connection that passes the handshake, sends messages within the rate limit, and then one past
  -- it: the server has delivered and answered exactly what came before that message, drops it and all
  -- that comes after, and bans nobody.
  pub flood_unpunished :
      (listing : List Text → List Text) (ip : Text) (hello : Hello)
      (before after : List (W × Message)) (now : W) (msg : Message) (server : PeerServer W)
      → accepts_hello hello server ≡ true
      → AllWithin listing ip before server silent
      → (check now ip (answer_all listing ip before server silent).0.limiter).1 ≡ false
      → ((handle listing ip hello (before ++ ((now, msg) ∷ after)) server).1
          ≡ (answer_all listing ip before server silent).1)
        × ((handle listing ip hello (before ++ ((now, msg) ∷ after)) server).0.banned
            ≡ server.banned)
  unfolding handle
  flood_unpunished listing ip hello before after now msg server greeted within past = (
    rw (greeted, handle)
        (ap (λ (o : PeerServer W × Traffic). o.1)
          (read_loop_cut listing ip before after now msg server silent within past)),
    handle_banned listing ip hello (before ++ ((now, msg) ∷ after)) server,
  )
