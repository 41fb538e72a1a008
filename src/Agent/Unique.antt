-- ===== src/Agent/Unique.antt =====
-- One agent for each address, whatever calls of the registry of agents/registry.py came before.
use arche_blockchain.Prelude.{
  ◌≡◌, ◌≢◌, ◌⊎◌, refl, sym, ◌∙◌, subst, Bool, true, false, Option, some, List, [], ◌∷◌, Text, ◌==◌,
  ==_iff, Bool-cases, Option-cases, inl, inr, arith, text_eq,
}
use arche_blockchain.Int.{ℤ}
use arche_blockchain.Dict
use arche_blockchain.Dict.{get-put}
use arche_blockchain.Manager.{Outcome, refuse, raise_if, save, with_entry}
use arche_blockchain.Agent.{
  AiAgent, AgentCapability, AgentStore, has_address, register, update_memory, record_job_request,
  record_job_completed, deactivate,
}

-- The calls of the registry, with the time and the fresh id each one reads.
pub data AgentCall : Type 0 where
  register_agent :
      ℤ → Text → Text → Text → Text → Text → Option AgentCapability → List Text → AgentCall
  set_memory : ℤ → Text → Text → Text → Text → AgentCall
  request : ℤ → Text → ℤ → AgentCall
  complete : ℤ → Text → ℤ → AgentCall
  stop : Text → Text → AgentCall

-- The store after a call.
unfoldable pub run_agent : AgentCall → AgentStore → AgentStore
run_agent (register_agent now id owner name key address caps tags) s =
    (register now id owner name key address caps tags s).0
run_agent (set_memory now id owner hash ref) s = (update_memory now id owner hash ref s).0
run_agent (request now id spent) s = (record_job_request now id spent s).0
run_agent (complete now id earned) s = (record_job_completed now id earned s).0
run_agent (stop id owner) s = (deactivate id owner s).0

-- Every agent stands under its own id, and two agents have different addresses.
pub record IsUnique (s : AgentStore) : Type 0 where
  pub own_id : (k : Text) (a : AiAgent) → Dict.get k s ≡ some a → a.agent_id ≡ k
  pub one_each :
      (j k : Text) (a b : AiAgent)
      → Dict.get j s ≡ some a
      → Dict.get k s ≡ some b
      → a.address ≡ b.address
      → j ≡ k

-- What a store holds after a write is the new agent, or was there before.
put_split :
    (id k : Text) (a' b : AiAgent) (s : AgentStore)
    → Dict.get k (Dict.put id a' s) ≡ some b
    → ((id ≡ k) × (a' ≡ b)) ⊎ (Dict.get k s ≡ some b)
put_split id k a' b s h = elim (Bool-cases (id == k)) [
  | inl hit ↦ inl ((==_iff id k).0 hit, ground (arith, get-put k id a' s, h, hit))
  | inr miss ↦ inr (ground (arith, get-put k id a' s, h, miss))
]

module _ (id : Text) (a a' : AiAgent) (s : AgentStore) (u : IsUnique s) where
  old_entry :
      (k : Text) (b : AiAgent)
      → Dict.get id s ≡ some a
      → a'.address ≡ a.address
      → Dict.get k (Dict.put id a' s) ≡ some b
      → (a0 : AiAgent) × (Dict.get k s ≡ some a0) × (b.address ≡ a0.address)
  old_entry k b found same h = elim (put_split id k a' b s h) [
    | inl (p, q) ↦ (a, subst (λ i. Dict.get i s ≡ some a) p found, cc (q, same))
    | inr before ↦ (b, before, refl)
  ]

  put-own_id :
      a'.agent_id ≡ id
      → (k : Text) (b : AiAgent) → Dict.get k (Dict.put id a' s) ≡ some b
      → b.agent_id ≡ k
  put-own_id own k b h = elim (put_split id k a' b s h) [
    | inl (p, q) ↦ cc (p, q, own)
    | inr before ↦ u.own_id k b before
  ]

  -- An agent written back under its id with its address.
  update-IsUnique :
      Dict.get id s ≡ some a
      → a'.agent_id ≡ id
      → a'.address ≡ a.address
      → IsUnique (Dict.put id a' s)
  update-IsUnique found own same = record {
    own_id = put-own_id own;
    one_each = λ j k b c hj hk e.
        let (b0, fb, eb) = old_entry j b found same hj in
        let (c0, fc, ec) = old_entry k c found same hk in
        u.one_each j k b0 c0 fb fc (sym eb ∙ e ∙ ec);
  }

has_address-false :
    (address k : Text) (b : AiAgent) (s : AgentStore)
    → has_address address s ≡ false
    → Dict.get k s ≡ some b
    → (b.address == address) ≡ false
unfolding has_address Dict.get
has_address-false address k b [] absent found = ground arith
has_address-false address k b ((i, c) ∷ s) absent found = elim (Bool-cases (i == k)) [
  | inl same ↦
      let q : c ≡ b = ground (arith, same, found) in
      subst (λ (x : AiAgent). (x.address == address) ≡ false) q (ground (arith, absent))
  | inr other ↦
      has_address-false address k b s (ground (arith, absent)) (ground (arith, other, found))
]

-- An agent that was there does not have the new agent's address.
clash :
    (c : AiAgent) (k : Text) (b a : AiAgent) (s : AgentStore)
    → has_address a.address s ≡ false
    → Dict.get k s ≡ some c
    → a ≡ b
    → b.address ≢ c.address
clash c k b a s absent found q e =
    let miss = has_address-false a.address k c s absent found in
    let hit = (==_iff c.address a.address).1 (cc (q, e)) in ground (arith, miss, hit)

-- A new agent at an address that no agent has.
insert-IsUnique :
    (id : Text) (a : AiAgent) (s : AgentStore)
    → IsUnique s
    → has_address a.address s ≡ false
    → a.agent_id ≡ id
    → IsUnique (Dict.put id a s)
insert-IsUnique id a s u absent own = record {
  own_id = put-own_id id a a s u own;
  one_each = λ j k b c hj hk e. elim (put_split id j a b s hj) [
    | inl (p, q) ↦ elim (put_split id k a c s hk) [
      | inl (p', q') ↦ sym p ∙ p'
      | inr before ↦ absurd (clash c k b a s absent before q e)
    ]
    | inr first ↦ elim (put_split id k a c s hk) [
      | inl (p', q') ↦ absurd (clash b j c a s absent first q' (sym e))
      | inr second ↦ u.one_each j k b c first second e
    ]
  ];
}

-- The store after the call is such a store.
unfoldable Kept : Outcome AiAgent → Type 0
Kept o = IsUnique o.0

module _ (s : AgentStore) (u : IsUnique s) where
  refuse-IsUnique : Kept (refuse s)
  unfolding Kept refuse
  refuse-IsUnique = u

  raise_if-IsUnique :
      (bad : Bool) (rest : Outcome AiAgent) → (bad ≡ false → Kept rest) → Kept (raise_if bad s rest)
  unfolding raise_if
  raise_if-IsUnique true rest k = refuse-IsUnique
  raise_if-IsUnique false rest k = k refl

  -- A call that finds an agent and writes it back.
  with_entry-IsUnique :
      (id : Text) (rest : AiAgent → Outcome AiAgent)
      → ((a : AiAgent) → Dict.get id s ≡ some a → a.agent_id ≡ id → Kept (rest a))
      → Kept (with_entry id s rest)
  unfolding with_entry Kept
  with_entry-IsUnique id rest k = elim (Option-cases (Dict.get id s)) [
    | inl missing ↦ rw (with_entry, missing) refuse-IsUnique
    | inr (a, found) ↦ rw (with_entry, found) (k a found (u.own_id id a found))
  ]

  save-IsUnique :
      (id : Text) (a a' : AiAgent)
      → Dict.get id s ≡ some a
      → a.agent_id ≡ id
      → a'.agent_id ≡ a.agent_id
      → a'.address ≡ a.address
      → Kept (save a.agent_id a' s)
  unfolding Kept save
  save-IsUnique id a a' found own same_id same_address =
      subst (λ i. IsUnique (Dict.put i a' s)) (sym own)
        (update-IsUnique id a a' s u found (same_id ∙ own) same_address)

  register-IsUnique :
      (now : ℤ) (id owner name key address : Text) (caps : Option AgentCapability)
      (tags : List Text)
      → Kept (register now id owner name key address caps tags s)
  unfolding register Kept save
  register-IsUnique now id owner name key address caps tags =
      raise_if-IsUnique _ _ λ absent. insert-IsUnique id _ s u absent refl

  update_memory-IsUnique :
      (now : ℤ) (id owner hash ref : Text) → Kept (update_memory now id owner hash ref s)
  unfolding update_memory
  update_memory-IsUnique now id owner hash ref = with_entry-IsUnique id _ λ a found own.
      raise_if-IsUnique _ _ λ _. raise_if-IsUnique _ _ λ _. save-IsUnique id a _ found own refl refl

  record_job_request-IsUnique :
      (now : ℤ) (id : Text) (spent : ℤ) → Kept (record_job_request now id spent s)
  unfolding record_job_request
  record_job_request-IsUnique now id spent =
      with_entry-IsUnique id _ λ a found own. save-IsUnique id a _ found own refl refl

  record_job_completed-IsUnique :
      (now : ℤ) (id : Text) (earned : ℤ) → Kept (record_job_completed now id earned s)
  unfolding record_job_completed
  record_job_completed-IsUnique now id earned =
      with_entry-IsUnique id _ λ a found own. save-IsUnique id a _ found own refl refl

  deactivate-IsUnique : (id owner : Text) → Kept (deactivate id owner s)
  unfolding deactivate
  deactivate-IsUnique id owner =
      with_entry-IsUnique id _
        λ a found own. raise_if-IsUnique _ _ λ _. save-IsUnique id a _ found own refl refl

  -- From a store where every agent stands under its own id and no two have one address, every call
  -- of the registry, refused ones included, leads to such a store.
  pub run_agent-IsUnique : (c : AgentCall) → IsUnique (run_agent c s)
  unfolding run_agent Kept
  run_agent-IsUnique (register_agent now id owner name key address caps tags) =
      register-IsUnique now id owner name key address caps tags
  run_agent-IsUnique (set_memory now id owner hash ref) =
      update_memory-IsUnique now id owner hash ref
  run_agent-IsUnique (request now id spent) = record_job_request-IsUnique now id spent
  run_agent-IsUnique (complete now id earned) = record_job_completed-IsUnique now id earned
  run_agent-IsUnique (stop id owner) = deactivate-IsUnique id owner
