-- ===== src/Rollup/Calls.antt =====
-- A call of `submitBatch` in contracts/src/Rollup.sol: when it succeeds, and what it then does.
use zk_rollup.Base.{
  ◌≡◌, ◌≢◌, sym, ap, ◌∙◌, ◌++◌, [], true, false, ok, err, some, arith, Result-cases, Option-cases,
  Bool-cases, inl, inr, length, take, drop, take-length, drop-length, length-append, append_assoc,
  append-nil, ltb,
}
use zk_rollup.Types.Bytes.{Bytes, bytes_eq}
use zk_rollup.Types.Order.{eq_of_bytes_eq, bytes_eq_refl}
use zk_rollup.Stf.{PublicValues, wrapping_add}
use zk_rollup.Prover.{HasHashes}
use zk_rollup.Rollup.{
  Verifier, Rollup, BatchSettled, Submission, zero_word, decode_words, submit_batch,
  stale_state_root,
}

-- three words that stand one after the other are read back
pub decode_words-append :
    (pv : PublicValues)
    → HasHashes pv
    → decode_words (pv.prev_root ++ (pv.new_root ++ pv.batch_hash)) ≡ some pv
unfolding decode_words
decode_words-append pv n =
    let tail = pv.new_root ++ pv.batch_hash in
    let all = pv.prev_root ++ tail in
    let two : length (pv.prev_root ++ pv.new_root) ≡ 64 =
      omega (arith, length-append pv.prev_root pv.new_root, n.0, n.1) in
    let sized : length all ≡ 96 = omega (
      arith,
      length-append pv.prev_root tail,
      length-append pv.new_root pv.batch_hash,
      n.0,
      n.1,
      n.2,
    ) in
    let first : take 32 all ≡ pv.prev_root = take-length pv.prev_root tail 32 n.0 in
    let second : take 32 (drop 32 all) ≡ pv.new_root =
      ap (take 32) (drop-length pv.prev_root tail 32 n.0)
      ∙ take-length pv.new_root pv.batch_hash 32 n.1 in
    let third : take 32 (drop 64 all) ≡ pv.batch_hash =
      ap (λ l. take 32 (drop 64 l)) (sym (append_assoc pv.prev_root pv.new_root pv.batch_hash))
      ∙ (ap (take 32) (drop-length (pv.prev_root ++ pv.new_root) pv.batch_hash 64 two)
          ∙ (ap (take 32) (sym (append-nil pv.batch_hash))
              ∙ take-length pv.batch_hash [] 32 n.2)) in
    let same : ltb (length all) 96 ≡ false = ground (arith, sized) in
    rw same (λ i. some (record { prev_root = first i; new_root = second i; batch_hash = third i }))

module _ ⦃v : Verifier⦄ where
  -- the state that a call leaves which the contract accepts
  abbrev pub advanced : PublicValues → Rollup → Rollup
  advanced values s = record s {
    state_root = values.new_root;
    batch_count = wrapping_add s.batch_count 1;
  }

  -- the event of such a call
  abbrev pub announced : PublicValues → Rollup → BatchSettled
  announced values s = record {
    batch_number = wrapping_add s.batch_count 1;
    prev_root = values.prev_root;
    new_root = values.new_root;
    batch_hash = values.batch_hash;
  }

  -- A call that the contract accepts: the proof verifies, the public values start from the root that
  -- it holds and end in a root that is not zero.
  pub record Advances (call : Submission) (s : Rollup) (values : PublicValues) : Type 0 where
    pub verified :
        v.verify_proof s.verifier s.program_vkey call.public_values call.proof_bytes ≡ ok tt
    pub decoded : decode_words call.public_values ≡ some values
    pub current : values.prev_root ≡ s.state_root
    pub not_empty : bytes_eq values.new_root zero_word ≡ false

  pub submit_batch-Advances :
      (call : Submission) (s t : Rollup) (event : BatchSettled)
      → submit_batch call s ≡ ok (event, t)
      → (values : PublicValues) × Advances call s values
        × (t ≡ advanced values s)
        × (event ≡ announced values s)
  unfolding submit_batch
  submit_batch-Advances call s t event h =
      elim (Result-cases
        (v.verify_proof s.verifier s.program_vkey call.public_values call.proof_bytes)) [
          | inr (fault, p) ↦ absurd (ground arith)
          | inl (_, p) ↦ elim (Option-cases (decode_words call.public_values)) [
            | inl q ↦ absurd (ground arith)
            | inr (values, q) ↦ elim (Bool-cases (bytes_eq values.prev_root s.state_root)) [
              | inr r ↦ absurd (ground arith)
              | inl r ↦ elim (Bool-cases (bytes_eq values.new_root zero_word)) [
                | inl z ↦ absurd (ground arith)
                | inr z ↦ (
                  values,
                  record {
                    verified = p;
                    decoded = q;
                    current = eq_of_bytes_eq values.prev_root s.state_root r;
                    not_empty = z;
                  },
                  ground arith,
                  ground arith,
                )
              ]
            ]
          ]
        ]

  pub Advances-submit_batch :
      (call : Submission) (s : Rollup) (values : PublicValues)
      → Advances call s values
      → submit_batch call s ≡ ok (announced values s, advanced values s)
  unfolding submit_batch
  Advances-submit_batch call s values a =
      let same : bytes_eq values.prev_root s.state_root ≡ true =
        rw a.current (bytes_eq_refl s.state_root) in
      ground (arith, same)

  pub bytes_eq_ne : (x y : Bytes) → x ≢ y → bytes_eq x y ≡ false
  bytes_eq_ne x y differ = elim (Bool-cases (bytes_eq x y)) [
    | inl same ↦ absurd (differ (eq_of_bytes_eq x y same))
    | inr other ↦ other
  ]

  pub stale :
      (call : Submission) (s : Rollup) (values : PublicValues)
      → v.verify_proof s.verifier s.program_vkey call.public_values call.proof_bytes ≡ ok tt
      → decode_words call.public_values ≡ some values
      → bytes_eq values.prev_root s.state_root ≡ false
      → submit_batch call s ≡ err (stale_state_root s.state_root values.prev_root)
  unfolding submit_batch
  stale call s values p q r = ground arith

  -- A call that has succeeded is refused when it is sent again, for its outdated root, unless its
  -- batch leaves the root as it is.
  pub submit_batch_replayed :
      (call : Submission) (s t : Rollup) (event : BatchSettled)
      → submit_batch call s ≡ ok (event, t)
      → event.prev_root ≢ event.new_root
      → submit_batch call t ≡ err (stale_state_root event.new_root event.prev_root)
  submit_batch_replayed call s t event h differ =
      let (values, a, moved, emitted) = submit_batch-Advances call s t event h in
      rw moved (
        rw emitted (
          stale call (advanced values s) values a.verified a.decoded
            (bytes_eq_ne values.prev_root values.new_root (λ p. differ (rw emitted p)))))
