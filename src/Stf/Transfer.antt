-- ===== src/Stf/Transfer.antt =====
-- `apply_tx`: when it accepts, what it then writes, and what its errors mean.
use zk_rollup.Base.{
  ◌+◌, ◌-◌, ◌≤◌, ◌<◌, ◌≡◌, ◌≢◌, false, Result, ok, err, arith, Result-cases, inl, inr, ap, sym, ◌∙◌,
  ◌↔◌,
}
use zk_rollup.Types.Address.{addr_eq, eq_of_addr_eq, addr_eq_refl}
use zk_rollup.Types.Bytes.{u64_mod}
use zk_rollup.Types.Crypto.{Crypto}
use zk_rollup.Types.Search.{Account}
use zk_rollup.Types.State.{State, get, set}
use zk_rollup.Types.Tx.{Tx, signing_hash, recover_address}
use zk_rollup.Stf.{apply_tx, wrapping_add}
use zk_rollup.Stf.Monad.{
  StfError, bad_signature, nonce_mismatch, insufficient_balance, overflow, self_transfer,
}

-- the sender's account after a transfer
abbrev pub debited : State → Tx → Account
debited s tx = record {
  balance = (get s tx.from).balance - tx.amount;
  nonce = wrapping_add (get s tx.from).nonce 1;
}

-- the recipient's account after a transfer
abbrev pub credited : State → Tx → Account
credited s tx = record { balance = (get s tx.to).balance + tx.amount; nonce = (get s tx.to).nonce }

abbrev pub transferred : State → Tx → State
transferred s tx = set (set s tx.from (debited s tx)) tx.to (credited s tx)

module _ ⦃c : Crypto⦄ where
  -- The rules of a transfer, independent of the order in which the code checks them.
  pub record Accepts (s : State) (tx : Tx) : Type 0 where
    pub distinct : addr_eq tx.from tx.to ≡ false
    pub signed : recover_address (signing_hash tx) tx.signature ≡ ok tx.from
    pub in_turn : (get s tx.from).nonce ≡ tx.nonce
    pub funded : tx.amount ≤ (get s tx.from).balance
    pub room : (get s tx.to).balance + tx.amount < u64_mod

  -- What an error says of the state and the transaction.
  abbrev pub Explains : State → Tx → StfError → Type 0
  Explains s tx bad_signature = recover_address (signing_hash tx) tx.signature ≢ ok tx.from
  Explains s tx (nonce_mismatch expected got) =
      (expected ≡ (get s tx.from).nonce) × (got ≡ tx.nonce) × (expected ≢ got)
  Explains s tx (insufficient_balance have need) =
      (have ≡ (get s tx.from).balance) × (need ≡ tx.amount) × (have < need)
  Explains s tx overflow = u64_mod ≤ (get s tx.to).balance + tx.amount
  Explains s tx self_transfer = tx.from ≡ tx.to

  pub apply_tx-Accepts :
      (s : State) (tx : Tx) → Accepts s tx → apply_tx tx s ≡ (ok tt, transferred s tx)
  unfolding apply_tx
  apply_tx-Accepts s tx a = ground (arith, a.signed, addr_eq_refl tx.from)

  pub Accepts-apply_tx : (s : State) (tx : Tx) → (apply_tx tx s).0 ≡ ok tt → Accepts s tx
  unfolding apply_tx
  Accepts-apply_tx s tx h = elim (Result-cases (recover_address (signing_hash tx) tx.signature)) [
    | inr (e, q) ↦ ground arith
    | inl (a, q) ↦ ground (arith, eq_of_addr_eq a tx.from)
  ]

  pub apply_tx_unchanged :
      (s : State) (tx : Tx) {e : StfError} → (apply_tx tx s).0 ≡ err e → (apply_tx tx s).1 ≡ s
  unfolding apply_tx
  apply_tx_unchanged s tx h = ground arith

  pub apply_tx-Explains :
      (s : State) (tx : Tx) (e : StfError) → (apply_tx tx s).0 ≡ err e → Explains s tx e
  unfolding apply_tx
  apply_tx-Explains s tx bad_signature h = ground (arith, addr_eq_refl tx.from)
  apply_tx-Explains s tx (nonce_mismatch expected got) h = ground arith
  apply_tx-Explains s tx (insufficient_balance have need) h = ground arith
  apply_tx-Explains s tx overflow h = ground arith
  apply_tx-Explains s tx self_transfer h = ground (arith, eq_of_addr_eq tx.from tx.to)

  -- `apply_tx` succeeds exactly on the transactions that the rules accept, and leaves the state in
  -- which the amount has moved and the sender's nonce has advanced.
  pub apply_tx-eq-ok :
      (s t : State) (tx : Tx)
      → (apply_tx tx s ≡ (ok tt, t)) ↔ (Accepts s tx × (t ≡ transferred s tx))
  apply_tx-eq-ok s t tx = (
    λ h.
        let a = Accepts-apply_tx s tx (ap (λ (r : Result (Unit {0}) StfError × State). r.0) h) in
        (
          a,
          sym (
              ap (λ (r : Result (Unit {0}) StfError × State). r.1)
                (sym (apply_tx-Accepts s tx a) ∙ h)),
        ),
    λ h. apply_tx-Accepts s tx h.0 ∙ (λ i. (ok tt, sym h.1 i)),
  )

  -- A transaction that fails changes nothing, and its error is true of the state and the transaction.
  pub apply_tx-eq-err :
      (s : State) (tx : Tx) (e : StfError)
      → (apply_tx tx s).0 ≡ err e
      → ((apply_tx tx s).1 ≡ s) × Explains s tx e
  apply_tx-eq-err s tx e h = (apply_tx_unchanged s tx h, apply_tx-Explains s tx e h)
