-- ===== src/Stf/Run.antt =====
-- `apply_batch` against the rules: it succeeds exactly on the batches in which every transaction is
-- accepted in its turn, and otherwise it reports the first that is not.
use zk_rollup.Base.{
  ◌≡◌, ◌≢◌, refl, ok, err, List, [], ◌∷◌, ◌++◌, arith, inl, inr, Result-cases, ap, sym, ◌↔◌, ◌∙◌,
}
use zk_rollup.Types.Crypto.{Crypto}
use zk_rollup.Types.State.{State, merkle_root}
use zk_rollup.Types.Tx.{Tx, Batch, batch_hash}
use zk_rollup.Stf.{apply_tx, apply_all, apply_batch, ApplyOutput, PublicValues}
use zk_rollup.Stf.Monad.{StfError}
use zk_rollup.Stf.Transfer.{
  Accepts, Explains, transferred, apply_tx-Accepts, Accepts-apply_tx, apply_tx_unchanged,
  apply_tx-Explains,
}

-- the state after a list of transfers that are all accepted
abbrev pub after : List Tx → State → State
after [] s = s
after (tx ∷ txs) s = after txs (transferred s tx)

module _ ⦃c : Crypto⦄ where
  -- every transaction is accepted in the state that those before it leave
  abbrev pub AllAccept : List Tx → State → Type 0
  AllAccept [] s = Unit
  AllAccept (tx ∷ txs) s = Accepts s tx × AllAccept txs (transferred s tx)

  pub apply_all_step :
      (tx : Tx) (txs : List Tx) (s : State)
      → Accepts s tx
      → apply_all (tx ∷ txs) s ≡ apply_all txs (transferred s tx)
  unfolding apply_all
  apply_all_step tx txs s a = ground (arith, apply_tx-Accepts s tx a)

  pub apply_all_stop :
      (tx : Tx) (txs : List Tx) (s : State) (e : StfError)
      → (apply_tx tx s).0 ≡ err e
      → apply_all (tx ∷ txs) s ≡ (err e, s)
  unfolding apply_all
  apply_all_stop tx txs s e h = ground (arith, apply_tx_unchanged s tx h)

  pub apply_all-AllAccept :
      (txs : List Tx) (s : State) → AllAccept txs s → apply_all txs s ≡ (ok tt, after txs s)
  unfolding apply_all
  apply_all-AllAccept [] s h = refl
  apply_all-AllAccept (tx ∷ txs) s h =
      ground (arith, apply_tx-Accepts s tx h.0, apply_all-AllAccept txs (transferred s tx) h.1)

  pub AllAccept-apply_all :
      (txs : List Tx) (s : State) → (apply_all txs s).0 ≡ ok tt → AllAccept txs s
  unfolding apply_all
  AllAccept-apply_all [] s h = tt
  AllAccept-apply_all (tx ∷ txs) s h =
      let a = Accepts-apply_tx s tx (ground arith) in
      (a, AllAccept-apply_all txs (transferred s tx) (ground (arith, apply_tx-Accepts s tx a)))

  -- A run that fails at a refused transaction, after some that are all accepted, and leaves the
  -- state as those have made it.
  pub record FailsWith (txs : List Tx) (s : State) (e : StfError) (left : State) : Type 0 where
    pub before : List Tx
    pub failing : Tx
    pub rest : List Tx
    pub split : txs ≡ before ++ failing ∷ rest
    pub accepted : AllAccept before s
    pub reached : left ≡ after before s
    pub reason : Explains left failing e

  FailsWith-cons :
      (tx : Tx) (txs : List Tx) (s : State) (e : StfError) (left : State)
      → Accepts s tx
      → FailsWith txs (transferred s tx) e left
      → FailsWith (tx ∷ txs) s e left
  FailsWith-cons tx txs s e left a f = record {
    before = tx ∷ f.before;
    failing = f.failing;
    rest = f.rest;
    split = ap (λ l. tx ∷ l) f.split;
    accepted = (a, f.accepted);
    reached = f.reached;
    reason = f.reason;
  }

  apply_all-nil : (s : State) (e : StfError) → (apply_all [] s).0 ≢ err e
  unfolding apply_all
  apply_all-nil s e h = cc

  pub apply_all-FailsWith :
      (txs : List Tx) (s : State) (e : StfError)
      → (apply_all txs s).0 ≡ err e
      → FailsWith txs s e (apply_all txs s).1
  apply_all-FailsWith [] s e h = absurd (apply_all-nil s e h)
  apply_all-FailsWith (tx ∷ txs) s e h = elim (Result-cases (apply_tx tx s).0) [
    | inl (u, q) ↦
        let a = Accepts-apply_tx s tx q in
        let p = apply_all_step tx txs s a in
        rw p (
          FailsWith-cons tx txs s e (apply_all txs (transferred s tx)).1 a
            (apply_all-FailsWith txs (transferred s tx) e (rw p at h)))
    | inr (d, q) ↦
        let p = apply_all_stop tx txs s d q in
        let same : d ≡ e = ground (arith, p) in
        rw p (record {
          before = [];
          failing = tx;
          rest = txs;
          split = refl;
          accepted = tt;
          reached = refl;
          reason = apply_tx-Explains s tx e (q ∙ ap err same);
        })
  ]

  -- the public values of a run of `txs` from `s`
  abbrev pub values_of : List Tx → State → PublicValues
  values_of txs s = record {
    prev_root = merkle_root s;
    new_root = merkle_root (after txs s);
    batch_hash = batch_hash (record { txs = txs });
  }

  pub apply_batch-AllAccept :
      (s : State) (b : Batch)
      → AllAccept b.txs s
      → apply_batch s b
        ≡ ok (record { new_state = after b.txs s; public_values = values_of b.txs s })
  unfolding apply_batch
  apply_batch-AllAccept s b h = ground (arith, apply_all-AllAccept b.txs s h)

  pub AllAccept-apply_batch :
      (s : State) (b : Batch) (out : ApplyOutput)
      → apply_batch s b ≡ ok out
      → AllAccept b.txs s
        × (out.new_state ≡ after b.txs s)
        × (out.public_values ≡ values_of b.txs s)
  unfolding apply_batch
  AllAccept-apply_batch s b out h =
      let a = AllAccept-apply_all b.txs s (ground arith) in
      let p = apply_all-AllAccept b.txs s a in (a, ground (arith, p), ground (arith, p))

  -- `apply_batch` succeeds exactly if every transaction of the batch is accepted in its turn; its
  -- output is then the state that the transfers leave, with the roots before and after and the
  -- batch's hash as the public values.
  pub apply_batch-eq-ok :
      (s : State) (b : Batch) (out : ApplyOutput)
      → (apply_batch s b ≡ ok out) ↔ (
          AllAccept b.txs s
          × (out.new_state ≡ after b.txs s)
          × (out.public_values ≡ values_of b.txs s))
  apply_batch-eq-ok s b out = (
    AllAccept-apply_batch s b out,
    λ h.
        apply_batch-AllAccept s b h.0
        ∙ ap ok (λ i. record { new_state = sym h.1 i; public_values = sym h.2 i }),
  )

  -- If `apply_batch` fails, its error is that of a transaction which is refused in the state that
  -- those before it in the batch, all accepted, have left.
  pub apply_batch-FailsWith :
      (s : State) (b : Batch) (e : StfError)
      → apply_batch s b ≡ err e
      → (left : State) × FailsWith b.txs s e left
  unfolding apply_batch
  apply_batch-FailsWith s b e h =
      ((apply_all b.txs s).1, apply_all-FailsWith b.txs s e (ground arith))
