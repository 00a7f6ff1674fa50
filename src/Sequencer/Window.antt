-- ===== src/Sequencer/Window.antt =====
-- The window of crates/sequencer/src/state.rs between drain_for_batch and commit_batch, in which the
-- speculative state knows nothing of the batch in flight.
use zk_rollup.Base.{
  ◌+◌, ◌<◌, ◌≤◌, ◌≡◌, refl, sym, ap, inl, inr, [], ◌∷◌, List, All, Result, ok, err, arith,
  Result-cases,
}
use zk_rollup.Types.Bytes.{Hash, u64_mod}
use zk_rollup.Types.Crypto.{Crypto}
use zk_rollup.Types.State.{State, get, merkle_root}
use zk_rollup.Types.State.Laws.{IsValid}
use zk_rollup.Types.Tx.{Tx}
use zk_rollup.Types.Tx.Binding.{IsTx}
use zk_rollup.Stf.{apply_tx}
use zk_rollup.Stf.Monad.{StfError}
use zk_rollup.Stf.Ledger.{sent, sent-cons_self, nonce-after}
use zk_rollup.Stf.Replay.{SameTurn}
use zk_rollup.Stf.Run.{after}
use zk_rollup.Stf.Transfer.{Accepts, Accepts-apply_tx}
use zk_rollup.Sequencer.{SequencerState, admit_tx, drain_for_batch, retain, rebuild, commit_batch}
use zk_rollup.Sequencer.Consistency.{
  IsConsistent, queued, admit_tx-Accepts, admit_tx_refused, retain_refused, commit_batch-AllAccept,
}

module _ ⦃c : Crypto⦄ where
  -- out of turn, whatever else may be wrong with it
  out_of_turn :
      (s : State) (tx : Tx)
      → ¬ ((get s tx.from).nonce ≡ tx.nonce)
      → (e : StfError) × ((apply_tx tx s).0 ≡ err e)
  out_of_turn s tx late = elim (Result-cases (apply_tx tx s).0) [
    | inl (u, p) ↦ absurd (late (Accepts-apply_tx s tx p).in_turn)
    | inr (e, p) ↦ (e, p)
  ]

  -- a mempool of one transaction that is out of turn is emptied
  rebuild_drops :
      (tx : Tx) (root : Hash) (s : SequencerState)
      → s.mempool ≡ tx ∷ []
      → ¬ ((get s.canonical_state tx.from).nonce ≡ tx.nonce)
      → (rebuild root s).mempool ≡ []
  unfolding rebuild retain
  rebuild_drops tx root s waits late =
      let (e, p) = out_of_turn s.canonical_state tx late in
      rw waits (ap (λ (r : List Tx × State). r.0) (retain_refused tx [] s.canonical_state e p))

  -- the state of a sequencer that has drained its mempool
  abbrev pub waiting_for_commit : SequencerState → SequencerState
  waiting_for_commit s = record s { mempool = []; speculative_state = s.canonical_state }

  -- While the batch of a valid and consistent sequencer with well-formed transactions is in flight,
  -- where the sender of the batch's first transaction stays below the last nonce: a transaction of
  -- that sender for the next turn after the batch, the nonce in the speculative state before the
  -- drain, is refused; and another for the turn of the first one, which may be that very
  -- transaction, is admitted if the canonical state accepts it, but the commit, which succeeds,
  -- drops it, so that the turn is not taken twice.
  pub drain_for_batch_window :
      (s : SequencerState) (first next other : Tx) (rest : List Tx)
      → IsConsistent s
      → IsValid s.canonical_state
      → All IsTx s.mempool
      → s.mempool ≡ first ∷ rest
      → (get s.canonical_state first.from).nonce + sent first.from s.mempool < u64_mod
      → next.from ≡ first.from
      → next.nonce ≡ (get s.speculative_state first.from).nonce
      → SameTurn first other
      → Accepts s.canonical_state other
      → let ((prev, batch), drained) = drain_for_batch s in
        let taken = (admit_tx other drained).1 in
        let (done, left) = commit_batch batch (merkle_root s.speculative_state) taken in
        ((e : StfError) × (admit_tx next drained ≡ (err e, drained)))
        × ((admit_tx other drained).0 ≡ ok tt)
        × (taken.mempool ≡ other ∷ [])
        × (done ≡ ok tt)
        × (left.mempool ≡ [])
  unfolding drain_for_batch
  drain_for_batch_window s first next other rest k v t split small from turn same accepted =
      let d = waiting_for_commit s in
      let counted = nonce-after s.mempool s.canonical_state first.from v t k.pending in
      let begun : 1 ≤ sent first.from s.mempool = rw split (sent-cons_self first rest) in
      let spec : (get s.speculative_state first.from).nonce
          ≡ (get s.canonical_state first.from).nonce + sent first.from s.mempool =
        rw k.speculative (omega (arith, counted, small)) in
      let early : ¬ ((get s.canonical_state next.from).nonce ≡ next.nonce) =
        rw from (λ e. omega (arith, e, turn, spec, begun)) in
      let (e, p) = out_of_turn s.canonical_state next early in
      let path = admit_tx-Accepts other d accepted in
      let taken : (get s.canonical_state first.from).nonce ≡ other.nonce =
        rw same.0 accepted.in_turn in
      let late : ¬ ((get (after s.mempool s.canonical_state) other.from).nonce ≡ other.nonce) =
        rw (← same.0) (λ e. omega (arith, e, taken, counted, small, begun)) in
      let committed =
        commit_batch-AllAccept (record { txs = s.mempool }) (merkle_root s.speculative_state)
          (queued other d) k.pending (ap merkle_root (sym k.speculative)) in
      (
        (e, admit_tx_refused next d e p),
        ap (λ (r : Result (Unit {0}) StfError × SequencerState). r.0) path,
        rw path refl,
        rw path (rw committed refl),
        rw path (rw committed (rebuild_drops other (merkle_root s.speculative_state) _ refl late)),
      )
