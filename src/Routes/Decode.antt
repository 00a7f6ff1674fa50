-- ===== src/Routes/Decode.antt =====
-- What the sequencer reads in the prover's answer: step 3 of `trigger_batch` in
-- crates/sequencer/src/routes.rs.
use zk_rollup.Base.{
  >>=-eq-ok, map_err-eq-ok, map_err, ◌<◌, ◌≡◌, ◌++◌, List, All, All-append, length, take, drop,
  take-length, drop-length, length-append, ok, arith, ◌∙◌, sym, ap,
}
use zk_rollup.Types.Bytes.{Bytes, Hash}
use zk_rollup.Types.Crypto.{Crypto, IsLawful}
use zk_rollup.Types.State.{State, merkle_root}
use zk_rollup.Types.Text.{hex_to_bytes, Hex, IsLawfulHex, hex0x}
use zk_rollup.Types.Text.RoundTrip.{hex_to_bytes-hex0x}
use zk_rollup.Types.Tx.{Tx, Batch, batch_hash}
use zk_rollup.Stf.{PublicValues, ApplyOutput, apply_batch}
use zk_rollup.Stf.Run.{values_of, AllAccept-apply_batch}
use zk_rollup.Prover.{Abi, IsLawfulAbi, HasHashes}
use zk_rollup.Prover.Service.{ProveResponse}
use zk_rollup.Routes.{decode_response}

middle_word :
    (x y z : Bytes) → length x ≡ 32 → length y ≡ 32 → take 32 (drop 32 (x ++ (y ++ z))) ≡ y
middle_word x y z hx hy = rw (drop-length x (y ++ z) 32 hx) (take-length y z 32 hy)

words_length :
    (x y z : Bytes) → length x ≡ 32 → length y ≡ 32 → length z ≡ 32 → length (x ++ (y ++ z)) ≡ 96
words_length x y z hx hy hz = omega (arith, length-append x (y ++ z), length-append y z)

-- What the types say of the words of public values.
abbrev pub HasBytes : PublicValues → Type 0
HasBytes pv =
    All (λ x. x < 256) pv.prev_root
    × All (λ x. x < 256) pv.new_root
    × All (λ x. x < 256) pv.batch_hash

module _ ⦃h : Hex⦄ ⦃a : Abi⦄ where
  -- From an answer that shows the encoded public values the sequencer reads the new root in them.
  pub decode_response-attests :
      (p : ProveResponse) (pv : PublicValues) (proof : Bytes)
      → IsLawfulHex h
      → IsLawfulAbi a
      → HasHashes pv
      → HasBytes pv
      → All (λ x. x < 256) proof
      → p.public_values ≡ hex0x (a.abi_encode pv)
      → p.proof ≡ hex0x proof
      → decode_response p ≡ ok (a.abi_encode pv, proof, pv.new_root)
  unfolding decode_response
  decode_response-attests p pv proof hex abi n w wp shown shown_proof =
      let words = abi.abi_encode_words pv n in
      let all_words = pv.prev_root ++ (pv.new_root ++ pv.batch_hash) in
      let in_range : All (λ x. x < 256) all_words =
        All-append (λ x. x < 256) pv.prev_root (pv.new_root ++ pv.batch_hash) w.0
          (All-append (λ x. x < 256) pv.new_root pv.batch_hash w.1 w.2) in
      ground (
        arith,
        shown,
        shown_proof,
        words,
        hex_to_bytes-hex0x all_words hex in_range,
        hex_to_bytes-hex0x proof hex wp,
        words_length pv.prev_root pv.new_root pv.batch_hash n.0 n.1 n.2,
        middle_word pv.prev_root pv.new_root pv.batch_hash n.0 n.1,
      )

module _ ⦃c : Crypto⦄ where
  pub values_of-HasHashes : (txs : List Tx) (s : State) → IsLawful c → HasHashes (values_of txs s)
  unfolding merkle_root batch_hash
  values_of-HasHashes txs s law = (law.keccak_length _, law.keccak_length _, law.keccak_length _)

  pub values_of-HasBytes : (txs : List Tx) (s : State) → IsLawful c → HasBytes (values_of txs s)
  unfolding merkle_root batch_hash
  values_of-HasBytes txs s law = (law.keccak_bytes _, law.keccak_bytes _, law.keccak_bytes _)

module _ ⦃h : Hex⦄ where
  -- a decoded answer whose public values show the given bytes
  decode_response_inv :
      (p : ProveResponse) (shown pv proof : Bytes) (root : Hash)
      → IsLawfulHex h
      → All (λ x. x < 256) shown
      → p.public_values ≡ hex0x shown
      → decode_response p ≡ ok (pv, proof, root)
      → (pv ≡ shown) × (root ≡ take 32 (drop 32 shown))
  unfolding decode_response
  decode_response_inv p shown pv proof root hex w e decoded =
      let (bytes, p1, e1) = >>=-eq-ok (map_err _ (hex_to_bytes p.public_values)) _ decoded in
      let (proof', p2, e2) = >>=-eq-ok (map_err _ (hex_to_bytes p.proof)) _ e1 in
      let q1 = map_err-eq-ok _ (hex_to_bytes p.public_values) p1 in
      let same : bytes ≡ shown = cc (q1, e, hex_to_bytes-hex0x shown hex w) in
      (ground (arith, same), ground (arith, same))

module _ ⦃c : Crypto⦄ ⦃h : Hex⦄ ⦃a : Abi⦄ where
  -- From an answer that shows the public values of a run the sequencer decodes those, and the new
  -- root of the run.
  pub decode_response_run :
      (prev : State) (batch : Batch) (out : ApplyOutput) (p : ProveResponse) (pv proof : Bytes)
      (root : Hash)
      → IsLawful c
      → IsLawfulHex h
      → IsLawfulAbi a
      → apply_batch prev batch ≡ ok out
      → p.public_values ≡ hex0x (a.abi_encode out.public_values)
      → decode_response p ≡ ok (pv, proof, root)
      → (pv ≡ a.abi_encode out.public_values) × (root ≡ out.public_values.new_root)
  decode_response_run prev batch out p pv proof root law hex abi ran shown decoded =
      let (_, left, values) = AllAccept-apply_batch prev batch out ran in
      let vs = values_of batch.txs prev in
      let n = values_of-HasHashes batch.txs prev law in
      let w = values_of-HasBytes batch.txs prev law in
      let words = abi.abi_encode_words vs n in
      let all_words = vs.prev_root ++ (vs.new_root ++ vs.batch_hash) in
      let in_range : All (λ x. x < 256) all_words =
        All-append (λ x. x < 256) vs.prev_root (vs.new_root ++ vs.batch_hash) w.0
          (All-append (λ x. x < 256) vs.new_root vs.batch_hash w.1 w.2) in
      let encoded : a.abi_encode out.public_values ≡ all_words = ap a.abi_encode values ∙ words in
      let (same, read) =
        decode_response_inv p all_words pv proof root hex in_range (shown ∙ ap hex0x encoded)
          decoded in
      (
        same ∙ sym encoded,
        read
            ∙ (middle_word vs.prev_root vs.new_root vs.batch_hash n.0 n.1
                ∙ ap (λ (x : PublicValues). x.new_root) (sym values)),
      )
