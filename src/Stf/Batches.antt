-- ===== src/Stf/Batches.antt =====
-- The theorems on `apply_batch`: the accounts after a batch, who has signed, no replay, and what
-- the public values commit to.
use zk_rollup.Base.{◌+◌, ◌%◌, ◌<◌, ◌≡◌, refl, ok, List, [], ◌∷◌, ◌++◌, All, length}
use zk_rollup.Types.Address.{Address}
use zk_rollup.Types.Bytes.{u64_mod}
use zk_rollup.Types.Crypto.{Crypto}
use zk_rollup.Types.Search.Locate.{IsOrdered}
use zk_rollup.Types.State.{State, get}
use zk_rollup.Types.State.Laws.{IsValid, total}
use zk_rollup.Types.Tx.{Tx, Batch}
use zk_rollup.Types.Tx.Binding.{IsTx}
use zk_rollup.Stf.{apply_batch, ApplyOutput}
use zk_rollup.Stf.Ledger.{
  outgoing, incoming, sent, balance-after, nonce-after, total-after, after-IsValid, IsSigned,
  AllAccept-IsSigned,
}
use zk_rollup.Stf.Replay.{NoReplay, AllAccept-NoReplay}
use zk_rollup.Stf.Run.{AllAccept, after, apply_batch-AllAccept, AllAccept-apply_batch, values_of}
use zk_rollup.Stf.Transfer.{transferred}

module _ ⦃c : Crypto⦄ where
  -- What a batch has done to the accounts, counted from its transactions.
  pub record Settles (s : State) (txs : List Tx) (t : State) : Type 0 where
    pub valid : IsValid t
    pub supply : total t ≡ total s
    pub balances :
        (k : Address) → (get t k).balance + outgoing k txs ≡ (get s k).balance + incoming k txs
    pub nonces : (k : Address) → (get t k).nonce ≡ ((get s k).nonce + sent k txs) % u64_mod

  -- If a batch of well-formed transactions succeeds on a valid state, the new state is valid, the sum
  -- of all balances is the same, and for every address: its new balance and what it sent are its old
  -- balance and what it received, and its nonce has grown by the number of transactions that it
  -- sent, modulo 2 ^ 64.
  pub apply_batch-Settles :
      (s : State) (b : Batch) (out : ApplyOutput)
      → IsValid s
      → All IsTx b.txs
      → apply_batch s b ≡ ok out
      → Settles s b.txs out.new_state
  apply_batch-Settles s b out v t h =
      let (a, p, _) = AllAccept-apply_batch s b out h in
      rw p (record {
        valid = after-IsValid b.txs s v t a;
        supply = total-after b.txs s v.ordered a;
        balances = λ k. balance-after b.txs s k v.ordered a;
        nonces = λ k. nonce-after b.txs s k v t a;
      })

  -- In a batch that succeeds every transaction carries a signature from which its sender is recovered.
  pub apply_batch-IsSigned :
      (s : State) (b : Batch) (out : ApplyOutput) → apply_batch s b ≡ ok out → All IsSigned b.txs
  apply_batch-IsSigned s b out h = AllAccept-IsSigned b.txs s (AllAccept-apply_batch s b out h).0

  -- In a batch that succeeds on ordered accounts no two transactions have the same sender and nonce,
  -- as long as no account's nonce plus the number of transactions reaches 2 ^ 64.
  pub apply_batch-NoReplay :
      (s : State) (b : Batch) (out : ApplyOutput)
      → IsOrdered s.accounts
      → ((k : Address) → (get s k).nonce + length b.txs < u64_mod)
      → apply_batch s b ≡ ok out
      → NoReplay b.txs
  apply_batch-NoReplay s b out o small h =
      AllAccept-NoReplay b.txs s o (AllAccept-apply_batch s b out h).0 small

  pub AllAccept-append :
      (ts us : List Tx) (s : State)
      → AllAccept ts s
      → AllAccept us (after ts s)
      → AllAccept (ts ++ us) s
  AllAccept-append [] us s h k = k
  AllAccept-append (t ∷ ts) us s h k = (h.0, AllAccept-append ts us (transferred s t) h.1 k)

  pub after-append : (ts us : List Tx) (s : State) → after (ts ++ us) s ≡ after us (after ts s)
  after-append [] us s = refl
  after-append (t ∷ ts) us s = after-append ts us (transferred s t)

  -- Two batches that both succeed, the second from the state that the first leaves, are one batch
  -- that succeeds with the second's new state.
  pub apply_batch-append :
      (s : State) (b d : Batch) (out next : ApplyOutput)
      → apply_batch s b ≡ ok out
      → apply_batch out.new_state d ≡ ok next
      → (whole : ApplyOutput) × (apply_batch s (record { txs = b.txs ++ d.txs }) ≡ ok whole)
        × (whole.new_state ≡ next.new_state)
        × (whole.public_values.prev_root ≡ out.public_values.prev_root)
        × (whole.public_values.new_root ≡ next.public_values.new_root)
  apply_batch-append s b d out next h k =
      let (a, p, v) = AllAccept-apply_batch s b out h in
      let (a', p', v') = AllAccept-apply_batch out.new_state d next k in
      let whole : Batch = record { txs = b.txs ++ d.txs } in
      let joined = AllAccept-append b.txs d.txs s a (rw p at a') in
      let same = after-append b.txs d.txs s in
      (
        record { new_state = after whole.txs s; public_values = values_of whole.txs s },
        apply_batch-AllAccept s whole joined,
        cc,
        cc,
        cc,
      )
