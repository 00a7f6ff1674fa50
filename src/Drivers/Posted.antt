-- ===== src/Drivers/Posted.antt =====
-- What the sequencer makes of the two transfers of crates/sequencer/src/bin/demo.rs.
use zk_rollup.Base.{
  Result, err, ℕ, ◌+◌, ◌≤◌, ◌<◌, ◌≡◌, ◌≢◌, ◌++◌, refl, sym, ◌∙◌, List, [], ◌∷◌, All, some,
  Option-cases, inl, inr, length, ok, arith, true,
}
use zk_rollup.Types.Address.{Address}
use zk_rollup.Types.Bytes.{u64_mod}
use zk_rollup.Types.Crypto.{Crypto, IsLawful}
use zk_rollup.Types.Search.Locate.{IsOrdered}
use zk_rollup.Types.State.{State, get, merkle_root}
use zk_rollup.Types.Text.{Text, Hex, IsLawfulHex, hex0x}
use zk_rollup.Types.Tx.{Tx, signing_hash}
use zk_rollup.Stf.Transfer.{transferred}
use zk_rollup.Stf.Run.{AllAccept, after}
use zk_rollup.Sequencer.{SequencerState, readmit}
use zk_rollup.Sequencer.Consistency.{queued, admit_tx-Accepts}
use zk_rollup.Sequencer.Settlement.{readmit-AllAccept}
use zk_rollup.Routes.{ApiError, TxResponse, BatchResponse, Outside, trigger_batch, root}
use zk_rollup.Routes.Requests.{IsSendable, into_tx-request_of, submit_tx-Accepts}
use zk_rollup.Drivers.Wallet.{
  Signer, IsLawfulSigner, make_wallet, sign_bytes, signed_tx, sign, unsigned_tx,
}
use zk_rollup.Drivers.Signing.{NotReduced}
use zk_rollup.Drivers.Demo.{
  strip_prefix_0x, demo_tx, demo_txs, post_all, demo, DemoError, batch_failed,
}
use zk_rollup.Drivers.Transfers.{
  make_wallet-IsAddress, sign_bytes_inv, signed_tx-IsSendable, signed_tx-AllAccept,
}

module _ ⦃c : Crypto⦄ ⦃k : Signer c⦄ ⦃h : Hex⦄ where
  -- printing the signature and reading it back changes nothing
  demo_tx-signed_tx :
      (sk : k.SigningKey) (from to : Address) (amount nonce : ℕ)
      → IsLawfulSigner c k
      → IsLawfulHex h
      → demo_tx sk from to amount nonce ≡ signed_tx sk from to amount nonce
  unfolding demo_tx signed_tx sign strip_prefix_0x hex0x
  demo_tx-signed_tx sk from to amount nonce law hex =
      elim (Option-cases (sign_bytes sk (signing_hash (unsigned_tx from to amount nonce)))) [
        | inl p ↦ ground arith
        | inr (out, p) ↦ ground (arith, hex.decode_encode out (sign_bytes_inv sk _ out law p).1)
      ]

  -- transactions that are accepted one after the other are all posted
  post_all-AllAccept :
      (txs : List Tx) (s : SequencerState)
      → IsLawfulHex h
      → All IsSendable txs
      → AllAccept txs s.speculative_state
      → (resps : List TxResponse) × (post_all txs s ≡ (ok resps, readmit txs s))
  unfolding post_all readmit
  post_all-AllAccept [] s hex w a = ([], refl)
  post_all-AllAccept (tx ∷ txs) s hex w a =
      let (resps, rest) = post_all-AllAccept txs (queued tx s) hex w.1 a.1 in
      let posted = submit_tx-Accepts _ s tx (into_tx-request_of tx hex w.0) a.0 in
      (
        record {
          accepted = true;
          mempool_size = length s.mempool + 1;
          speculative_root = hex0x (merkle_root (transferred s.speculative_state tx));
        }
            ∷ resps,
        ground (arith, posted, rest, admit_tx-Accepts tx s a.0),
      )

  -- the two transfers, if no key panics
  demo_txs_inv :
      (txs : List Tx)
      → demo_txs ≡ some txs
      → (sk : k.SigningKey) × (alice : Address) × (other : k.SigningKey) × (bob : Address)
        × (first : Tx) × (second : Tx) × (make_wallet 1 ≡ some (sk, alice))
        × (make_wallet 2 ≡ some (other, bob))
        × (demo_tx sk alice bob 100 0 ≡ some first)
        × (demo_tx sk alice bob 200 1 ≡ some second)
        × (txs ≡ first ∷ second ∷ [])
  unfolding demo_txs
  demo_txs_inv txs e = elim (Option-cases (make_wallet 1)) [
    | inl p ↦ absurd (ground arith)
    | inr ((sk, alice), p) ↦ elim (Option-cases (make_wallet 2)) [
      | inl q ↦ absurd (ground arith)
      | inr ((other, bob), q) ↦ elim (Option-cases (demo_tx sk alice bob 100 0)) [
        | inl r ↦ absurd (ground arith)
        | inr (first, r) ↦ elim (Option-cases (demo_tx sk alice bob 200 1)) [
          | inl t ↦ absurd (ground arith)
          | inr (second, t) ↦ (sk, alice, other, bob, first, second, p, q, r, t, ground arith)
        ]
      ]
    ]
  ]

  -- the wallets' addresses have what the two transfers need
  pub record Stocked (s : State) : Type 0 where
    pub ordered : IsOrdered s.accounts
    pub turn :
        (sk : k.SigningKey) (alice : Address)
        → make_wallet 1 ≡ some (sk, alice)
        → ((get s alice).nonce ≡ 0) × (300 ≤ (get s alice).balance)
    pub room :
        (sk other : k.SigningKey) (alice bob : Address)
        → make_wallet 1 ≡ some (sk, alice)
        → make_wallet 2 ≡ some (other, bob)
        → (alice ≢ bob) × ((get s bob).balance + 300 < u64_mod)

  -- what the client ends with
  abbrev pub ended :
      Result BatchResponse ApiError → SequencerState → Result (BatchResponse × Text) DemoError
  ended (ok batch) next = ok (batch, (root next).root)
  ended (err e) next = err (batch_failed e)

  demo_txs-AllAccept :
      (txs : List Tx) (s : State)
      → IsLawful c
      → IsLawfulSigner c k
      → IsLawfulHex h
      → Stocked s
      → demo_txs ≡ some txs
      → All (λ (tx : Tx). NotReduced tx.signature) txs
      → AllAccept txs s × All IsSendable txs
  demo_txs-AllAccept txs s lc law hex st e small =
      let (sk, alice, other, bob, first, second, p, q, r, t, made) = demo_txs_inv txs e in
      let (turn, funds) = st.turn sk alice p in
      let (differ, room) = st.room sk other alice bob p q in
      let signed = sym (demo_tx-signed_tx sk alice bob 100 0 law hex) ∙ r in
      let signed' = sym (demo_tx-signed_tx sk alice bob 200 1 law hex) ∙ t in
      let ids = rw made at small in
      let (a, _, _) =
        signed_tx-AllAccept sk alice bob first second s law p signed signed' ids.0 ids.1.0 differ
          st.ordered turn funds room in
      let f = make_wallet-IsAddress 1 sk alice lc p in
      let g = make_wallet-IsAddress 2 other bob lc q in
      rw made (
        a,
        (
          signed_tx-IsSendable sk alice bob 100 0 first law f g signed,
          (signed_tx-IsSendable sk alice bob 200 1 second law f g signed', tt),
        ),
      )

  -- With crates that meet their laws: the demo client, whose two transfers can be signed with recovery ids of 0 or 1, on a sequencer in which the address of the
  -- first wallet has nonce 0 and 300 units and the second has room for them: both transfers are
  -- accepted and wait at the end of the mempool, and the client then ends with the response of POST
  -- /batch and the root after it, if the batch settles, and with its error if not.
  pub demo-post_all :
      (o : Outside) (s : SequencerState) (txs : List Tx)
      → IsLawful c
      → IsLawfulSigner c k
      → IsLawfulHex h
      → Stocked s.speculative_state
      → demo_txs ≡ some txs
      → All (λ (tx : Tx). NotReduced tx.signature) txs
      → let waiting = readmit txs s in
        let (r, next) = trigger_batch o waiting in
        (waiting.mempool ≡ s.mempool ++ txs)
        × (waiting.speculative_state ≡ after txs s.speculative_state)
        × (demo o s ≡ (ended r next, next))
  unfolding demo
  demo-post_all o s txs lc law hex st e small =
      let (a, w) = demo_txs-AllAccept txs s.speculative_state lc law hex st e small in
      let (resps, posted) = post_all-AllAccept txs s hex w a in
      let all = readmit-AllAccept txs s a in (rw all, rw all, ground (arith, e, posted))
