-- ===== src/Block/Mined.antt =====
-- What mine_block (node/pow.py) finds.
use arche_blockchain.Prelude.{
  ℕ, zero, suc, ◌+◌, ◌%◌, ◌^◌, ◌≤◌, ◌≡◌, refl, ap, subst, true, some, List, [], ◌∷◌, ◌++◌, take,
  length, leb, arith, Bool-cases, inl, inr, ◌==◌, nat_eq,
}
use arche_blockchain.Encoding.{Bytes, from_hex}
use arche_blockchain.Target.{from_bytes, bits_to_target, difficulty_to_bits}
use arche_blockchain.Tx.{Crypto, sha256d}
use arche_blockchain.Block.{Block, >>=-eq-some, pack_u32, pack_32s, header_bytes, meets_target}
use arche_blockchain.Block.Search.{found, patch_nonce, search_nonce, mine_block}

-- What replaces the rest of a list past a front leaves the front.
take-append :
    {A : Type 0} (m n : ℕ) (xs ys zs : List A)
    → m ≡ length xs + n
    → take m (xs ++ ys) ++ zs ≡ xs ++ (take n ys ++ zs)
take-append m n [] ys zs h = ap (λ (k : ℕ). take k ys ++ zs) (omega arith)
take-append zero n (x ∷ xs) ys zs h = ground (arith, h)
take-append (suc m) n (x ∷ xs) ys zs h = ap (λ l. x ∷ l) (take-append m n xs ys zs (omega arith))

length-pack_32s : (n : ℕ) (bs : Bytes) → length (pack_32s n bs) ≡ n
unfolding pack_32s
length-pack_32s zero bs = refl
length-pack_32s (suc n) [] = ap suc (length-pack_32s n [])
length-pack_32s (suc n) (b ∷ bs) = ap suc (length-pack_32s n bs)

pack_u32-length : (n : ℕ) (bs : Bytes) → pack_u32 n ≡ some bs → length bs ≡ 4
unfolding pack_u32
pack_u32-length n bs h = ground (arith, h)

-- The header of a block whose nonce is not known.
abbrev IsHeader : Block → Bytes → Type 0
IsHeader b header = (nonce : ℕ) × (header_bytes record b { nonce = nonce } ≡ some header)

take_header :
    (v p r t b n m : Bytes)
    → length v ≡ 4
    → length p ≡ 32
    → length r ≡ 32
    → length t ≡ 4
    → length b ≡ 4
    → take 76 (v ++ (p ++ (r ++ (t ++ (b ++ n))))) ++ m ≡ v ++ (p ++ (r ++ (t ++ (b ++ m))))
take_header v p r t b n m hv hp hr ht hb =
    rw (take-append 76 72 v (p ++ (r ++ (t ++ (b ++ n)))) m (omega arith)) (
      rw (take-append 72 40 p (r ++ (t ++ (b ++ n))) m (omega arith)) (
        rw (take-append 40 8 r (t ++ (b ++ n)) m (omega arith)) (
          rw (take-append 8 4 t (b ++ n) m (omega arith))
            (rw (take-append 4 0 b n m (omega arith)) refl))))

header_from :
    (block : Block) (v p r t b n : Bytes)
    → pack_u32 block.version ≡ some v
    → from_hex block.prev_hash ≡ some p
    → from_hex block.tx_merkle_root ≡ some r
    → pack_u32 block.timestamp ≡ some t
    → pack_u32 block.bits ≡ some b
    → pack_u32 block.nonce ≡ some n
    → header_bytes block ≡ some (v ++ (pack_32s 32 p ++ (pack_32s 32 r ++ (t ++ (b ++ n)))))
unfolding header_bytes
header_from block v p r t b n hv hp hr ht hb hn = rw hv (rw hp (rw hr (rw ht (rw hb (rw hn refl)))))

-- Writing a nonce into the bytes of a header gives the header of the block with that nonce.
patch_nonce-header :
    (block : Block) (header patched : Bytes) (nonce : ℕ)
    → IsHeader block header
    → patch_nonce nonce header ≡ some patched
    → header_bytes record block { nonce = nonce } ≡ some patched
unfolding patch_nonce header_bytes
patch_nonce-header block header patched nonce (old, h) h' =
    let (v, hv, e1) = >>=-eq-some (pack_u32 block.version) _ h in
    let (p, hp, e2) = >>=-eq-some (from_hex block.prev_hash) _ e1 in
    let (r, hr, e3) = >>=-eq-some (from_hex block.tx_merkle_root) _ e2 in
    let (t, ht, e4) = >>=-eq-some (pack_u32 block.timestamp) _ e3 in
    let (b, hb, e5) = >>=-eq-some (pack_u32 block.bits) _ e4 in
    let (n, hn, e6) = >>=-eq-some (pack_u32 old) _ e5 in
    let (m, hm, e7) = >>=-eq-some (pack_u32 nonce) _ h' in
    let cut =
      take_header v (pack_32s 32 p) (pack_32s 32 r) t b n m (pack_u32-length block.version v hv)
        (length-pack_32s 32 p) (length-pack_32s 32 r) (pack_u32-length block.timestamp t ht)
        (pack_u32-length block.bits b hb) in
    let made = header_from record block { nonce = nonce } v p r t b m hv hp hr ht hb hm in
    cc (cut, made, e6, e7)

-- The block meets the target of its bits, and differs from the one before in its nonce and, where
-- the nonces ran out, in a later time.
pub record IsMined (crypto : Crypto) (before block : Block) : Type 0 where
  pub meets : meets_target crypto block ≡ some true
  pub same_version : block.version ≡ before.version
  pub same_index : block.index ≡ before.index
  pub same_prev : block.prev_hash ≡ before.prev_hash
  pub same_bits : block.bits ≡ before.bits
  pub same_root : block.tx_merkle_root ≡ before.tx_merkle_root
  pub same_txs : block.transactions ≡ before.transactions
  pub not_earlier : before.timestamp ≤ block.timestamp

patched-IsMined :
    (crypto : Crypto) (before : Block) (patched : Bytes) (nonce : ℕ)
    → header_bytes record before { nonce = nonce } ≡ some patched
    → leb (from_bytes 0 (sha256d crypto patched)) (bits_to_target before.bits) ≡ true
    → IsMined crypto before record before { nonce = nonce }
unfolding meets_target
patched-IsMined crypto before patched nonce header met = record {
  meets = rw header (ap some met);
  same_version = refl;
  same_index = refl;
  same_prev = refl;
  same_bits = refl;
  same_root = refl;
  same_txs = refl;
  not_earlier = omega arith;
}

later-IsMined :
    (crypto : Crypto) (before block : Block)
    → IsMined crypto record before { timestamp = before.timestamp + 1 } block
    → IsMined crypto before block
later-IsMined crypto before block h = record {
  meets = h.meets;
  same_version = h.same_version;
  same_index = h.same_index;
  same_prev = h.same_prev;
  same_bits = h.same_bits;
  same_root = h.same_root;
  same_txs = h.same_txs;
  not_earlier = (let late = h.not_earlier in omega arith);
}

search_nonce-IsMined :
    (crypto : Crypto) (passes : ℕ) (before block : Block) (header : Bytes) (nonce : ℕ)
    → IsHeader before header
    → search_nonce crypto passes (bits_to_target before.bits) before header nonce
      ≡ some (found block)
    → IsMined crypto before block
unfolding search_nonce
search_nonce-IsMined crypto zero before block header nonce start run = ground (arith, run)
search_nonce-IsMined crypto (suc passes) before block header nonce start run =
    let (patched, patch, e) = >>=-eq-some (patch_nonce nonce header) _ run in
    let renewed = patch_nonce-header before header patched nonce start patch in
    elim (Bool-cases (leb (from_bytes 0 (sha256d crypto patched)) (bits_to_target before.bits))) [
      | inl met ↦
          let done : some (found record before { nonce = nonce }) ≡ some (found block) =
            rw met at e in
          subst (IsMined crypto before) (cc done)
            (patched-IsMined crypto before patched nonce renewed met)
      | inr missed ↦ elim (Bool-cases ((nonce + 1) % 2 ^ 32 == 0)) [
        | inl wrapped ↦
            let later : Block = record before { timestamp = before.timestamp + 1 } in
            let (rebuilt, fresh, e') =
              >>=-eq-some (header_bytes later) _ (rw wrapped at (rw missed at e)) in
            later-IsMined crypto before block
              (search_nonce-IsMined crypto passes later block rebuilt 0 (before.nonce, fresh) e')
        | inr next ↦
            search_nonce-IsMined crypto passes before block patched ((nonce + 1) % 2 ^ 32)
              (nonce, renewed) (rw next at (rw missed at e))
      ]
    ]

-- A block that mine_block returns meets the target of the difficulty, and differs from the block that
-- it was given in its bits, its nonce and perhaps a later time only: the search patches the nonce
-- into the bytes of the header, and these bytes are the header of the returned block.
pub mine_block-IsMined :
    (crypto : Crypto) (passes : ℕ) (block mined : Block) (difficulty start_nonce : ℕ)
    → mine_block crypto passes block difficulty start_nonce ≡ some (found mined)
    → IsMined crypto record block { bits = difficulty_to_bits difficulty } mined
unfolding mine_block
mine_block-IsMined crypto passes block mined difficulty start_nonce run =
    let candidate : Block = record block { bits = difficulty_to_bits difficulty } in
    let (header, start, e) = >>=-eq-some (header_bytes candidate) _ run in
    search_nonce-IsMined crypto passes candidate mined header (start_nonce % 2 ^ 32)
      (block.nonce, start) e
