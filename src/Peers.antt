-- ===== src/Peers.antt =====
-- node/p2p.py: the rate limiter of a peer, and what the server does with the messages of one inbound
-- connection. The clock is an argument.
pub mod Outbound
mod Reconnect
mod Limiter
mod Session
mod Bans
mod Examples
use arche_blockchain.Prelude.{
  ℕ, Bool, true, false, Option, none, some, List, [], ◌∷◌, ◌++◌, length, leb, Text, if◌then◌else◌,
  text_eq,
}
use arche_blockchain.Dict
use arche_blockchain.Dict.{Dict}
use arche_blockchain.Float.{Float}

unfoldable pub rate_limit_msg_per_sec : ℕ
rate_limit_msg_per_sec = 100

-- `_RateLimiter`: the times of the messages that were let through, by peer.
pub record RateLimiter (W : Type 0) : Type 0 where
  pub rate : ℕ
  pub window : W
  pub counts : Dict Text (List W)

module _ {W : Type 0} where
  abbrev pub new_limiter : ℕ → W → RateLimiter W
  new_limiter rate window = record { rate = rate; window = window; counts = [] }

  -- `self._counts[peer]`, of a defaultdict
  unfoldable pub times_of : Text → Dict Text (List W) → List W
  times_of peer counts = elim (Dict.get peer counts) [ none ↦ [] | some times ↦ times ]

  unfoldable pub cleanup : Text → RateLimiter W → RateLimiter W
  cleanup peer limiter = record limiter { counts = Dict.pop peer limiter.counts }

module _ {W : Type 0} ⦃fl : Float W⦄ where
  -- `[t for t in times if t > cutoff]`
  unfoldable pub after : W → List W → List W
  after cutoff [] = []
  after cutoff (t ∷ ts) = let rest = after cutoff ts in if fl.lt cutoff t then t ∷ rest else rest

  unfoldable pub check : W → Text → RateLimiter W → RateLimiter W × Bool
  check now peer limiter =
      let kept = after (fl.sub now limiter.window) (times_of peer limiter.counts) in
      if leb limiter.rate (length kept)
      then (record limiter { counts = Dict.put peer kept limiter.counts }, false)
      else (record limiter { counts = Dict.put peer (kept ++ (now ∷ [])) limiter.counts }, true)
