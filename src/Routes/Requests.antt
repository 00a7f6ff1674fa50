-- ===== src/Routes/Requests.antt =====
-- POST /tx: what a request is read as, and what its admission does.
use zk_rollup.Base.{
  ◌+◌, ◌<◌, ◌≡◌, [], ◌∷◌, true, All, length, length-append, ok, err, arith, Result-cases, map_err,
  >>=-eq-ok, map_err-eq-ok, inl, inr,
}
use zk_rollup.Types.Address.{IsAddress}
use zk_rollup.Types.Crypto.{Crypto}
use zk_rollup.Types.State.{merkle_root}
use zk_rollup.Types.Text.{Hex, IsLawfulHex, to_hex, from_hex, hex0x, strip_0x, hex_to_bytes}
use zk_rollup.Types.Text.RoundTrip.{from_hex-to_hex, from_hex-IsAddress, hex_to_bytes-hex0x}
use zk_rollup.Types.Tx.{Tx}
use zk_rollup.Stf.{apply_tx}
use zk_rollup.Stf.Transfer.{Accepts, transferred, Accepts-apply_tx}
use zk_rollup.Sequencer.{SequencerState}
use zk_rollup.Sequencer.Consistency.{queued, admit_tx-Accepts, admit_tx_refused}
use zk_rollup.Routes.{TxRequest, ApiError, into_tx, submit_tx, status}

module _ ⦃h : Hex⦄ where
  -- the request that the client in crates/sequencer/src/bin/demo.rs posts for a transaction
  unfoldable pub request_of : Tx → TxRequest
  request_of tx = record {
    from = to_hex tx.from;
    to = to_hex tx.to;
    amount = tx.amount;
    nonce = tx.nonce;
    signature = hex0x tx.signature;
  }

  -- what a transaction must be like to be sent: 20-byte addresses and a signature of 65 bytes
  pub record IsSendable (tx : Tx) : Type 0 where
    pub from_ok : IsAddress tx.from
    pub to_ok : IsAddress tx.to
    pub signature_bytes : All (λ x. x < 256) tx.signature
    pub signature_length : length tx.signature ≡ 65

  -- A well-formed transaction that is printed as a request is read back unchanged.
  pub into_tx-request_of :
      (tx : Tx) → IsLawfulHex h → IsSendable tx → into_tx (request_of tx) ≡ ok tx
  unfolding into_tx request_of
  into_tx-request_of tx law w = ground (
    arith,
    (from_hex-to_hex tx.from law w.from_ok).0,
    (from_hex-to_hex tx.to law w.to_ok).0,
    signature_read,
    w.signature_length,
  )
    where
      signature_read : h.decode (strip_0x (hex0x tx.signature)) ≡ ok tx.signature
      signature_read = unfold hex_to_bytes in hex_to_bytes-hex0x tx.signature law w.signature_bytes

  -- what a request that is read says of the transaction
  into_tx_inv :
      (req : TxRequest) (tx : Tx)
      → into_tx req ≡ ok tx
      → (from_hex req.from ≡ ok tx.from)
        × (from_hex req.to ≡ ok tx.to)
        × (h.decode (strip_0x req.signature) ≡ ok tx.signature)
        × (length tx.signature ≡ 65)
        × (tx.amount ≡ req.amount)
        × (tx.nonce ≡ req.nonce)
  unfolding into_tx
  into_tx_inv req tx e =
      let (from, p1, e1) = >>=-eq-ok (map_err _ (from_hex req.from)) _ e in
      let (to, p2, e2) = >>=-eq-ok (map_err _ (from_hex req.to)) _ e1 in
      let (signature, p3, e3) = >>=-eq-ok (map_err _ (h.decode (strip_0x req.signature))) _ e2 in
      let q1 = map_err-eq-ok _ (from_hex req.from) p1 in
      let q2 = map_err-eq-ok _ (from_hex req.to) p2 in
      let q3 = map_err-eq-ok _ (h.decode (strip_0x req.signature)) p3 in
      (
        ground (arith, q1),
        ground (arith, q2),
        ground (arith, q3),
        ground arith,
        ground arith,
        ground arith,
      )

  -- Whatever request is read as a transaction, the transaction is well formed: 20-byte addresses,
  -- a signature of 65 bytes, and the request's amount and nonce.
  pub into_tx-IsSendable :
      (req : TxRequest) (tx : Tx)
      → IsLawfulHex h
      → into_tx req ≡ ok tx
      → IsSendable tx × (tx.amount ≡ req.amount) × (tx.nonce ≡ req.nonce)
  into_tx-IsSendable req tx law e =
      let (f, t, s, n, x, y) = into_tx_inv req tx e in
      (
        record {
          from_ok = from_hex-IsAddress req.from tx.from law f;
          to_ok = from_hex-IsAddress req.to tx.to law t;
          signature_bytes = law.decode_bytes (strip_0x req.signature) tx.signature s;
          signature_length = n;
        },
        x,
        y,
      )

  into_tx-status : (req : TxRequest) (e : ApiError) → into_tx req ≡ err e → status e ≡ 400
  unfolding into_tx
  into_tx-status req e q = elim (Result-cases (from_hex req.from)) [
    | inr (d, p) ↦ ground arith
    | inl (from, p) ↦ elim (Result-cases (from_hex req.to)) [
      | inr (d, p') ↦ ground arith
      | inl (to, p') ↦ elim (Result-cases (h.decode (strip_0x req.signature))) [
        | inr (d, p'') ↦ ground arith
        | inl (signature, p'') ↦ ground arith
      ]
    ]
  ]

module _ ⦃c : Crypto⦄ ⦃h : Hex⦄ where
  -- A request that fails is answered with status 400 and changes nothing.
  pub submit_tx_failed :
      (req : TxRequest) (s : SequencerState) (e : ApiError)
      → (submit_tx req s).0 ≡ err e
      → (status e ≡ 400) × ((submit_tx req s).1 ≡ s)
  unfolding submit_tx
  submit_tx_failed req s e q = elim (Result-cases (into_tx req)) [
    | inr (d, p) ↦ ground (arith, into_tx-status req d p)
    | inl (tx, p) ↦ elim (Result-cases (apply_tx tx s.speculative_state).0) [
      | inr (d, r) ↦ ground (arith, admit_tx_refused tx s d r)
      | inl (u, r) ↦
          ground (arith, admit_tx-Accepts tx s (Accepts-apply_tx s.speculative_state tx r))
    ]
  ]

  -- A request that is read as a transaction which the rules accept is answered with the new length of
  -- the mempool and the new speculative root, and the transaction waits at the end of the mempool.
  pub submit_tx-Accepts :
      (req : TxRequest) (s : SequencerState) (tx : Tx)
      → into_tx req ≡ ok tx
      → Accepts s.speculative_state tx
      → submit_tx req s ≡ (
        ok (record {
          accepted = true;
          mempool_size = length s.mempool + 1;
          speculative_root = hex0x (merkle_root (transferred s.speculative_state tx));
        }),
        queued tx s,
      )
  unfolding submit_tx
  submit_tx-Accepts req s tx e a =
      ground (arith, admit_tx-Accepts tx s a, length-append s.mempool (tx ∷ []))
