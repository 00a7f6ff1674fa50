-- ===== src/Rollup/Chain.antt =====
-- The states that batches of crates/stf/src/lib.rs make of a genesis, and what a run of the zkVM
-- program of crates/sp1-program-stf/src/main.rs shows of them.
use zk_rollup.Base.{ℕ, ◌+◌, ◌≡◌, inl, inr, refl, ◌∙◌, [], ◌∷◌, ok, All, ◌⊎◌, arith, Result-cases}
use zk_rollup.Types.Bytes.{Bytes}
use zk_rollup.Types.Crypto.{Crypto}
use zk_rollup.Types.State.{State}
use zk_rollup.Types.State.Laws.{IsValid, IsEntry, total}
use zk_rollup.Types.Tx.{Batch}
use zk_rollup.Types.Tx.Binding.{IsTx}
use zk_rollup.Stf.{ApplyOutput, apply_batch}
use zk_rollup.Stf.Run.{after, AllAccept-apply_batch}
use zk_rollup.Stf.Batches.{apply_batch-Settles}
use zk_rollup.Prover.{Abi, Item, Stdin, program, state, batch}

-- What the Rust types say of a value on the program's standard input.
abbrev pub IsItem : Item → Type 0
IsItem (state s) = All IsEntry s.accounts
IsItem (batch b) = All IsTx b.txs

module _ ⦃c : Crypto⦄ where
  -- The states that batches make of a genesis, with the number of batches.
  pub data Chain (genesis : State) : State → ℕ → Type 0 where
    start : Chain genesis genesis 0
    settle :
        {s : State} {n : ℕ} (b : Batch) (out : ApplyOutput)
        → Chain genesis s n
        → All IsTx b.txs
        → apply_batch s b ≡ ok out
        → Chain genesis out.new_state (n + 1)

  pub Chain-IsValid :
      {genesis s : State} {n : ℕ}
      → IsValid genesis
      → Chain genesis s n
      → IsValid s × (total s ≡ total genesis)
  Chain-IsValid v start = (v, refl)
  Chain-IsValid v (settle b out before txs h) =
      let (v', kept) = Chain-IsValid v before in
      let settled = apply_batch-Settles _ b out v' txs h in (settled.valid, settled.supply ∙ kept)

module _ ⦃c : Crypto⦄ ⦃a : Abi⦄ where
  -- the states that a run of the program reads and leaves
  abbrev pub Attests : Stdin → State → Type 0
  Attests (state s ∷ batch b ∷ rest) t = (t ≡ s) ⊎ (t ≡ after b.txs s)
  Attests stdin t = ⊥

  pub record Ran (bytes : Bytes) : Type 0 where
    pub before : State
    pub run : Batch
    pub out : ApplyOutput
    pub entries : All IsEntry before.accounts
    pub txs : All IsTx run.txs
    pub applied : apply_batch before run ≡ ok out
    pub committed : bytes ≡ a.abi_encode out.public_values

  pub program-Ran :
      (stdin : Stdin) (bytes : Bytes)
      → All IsItem stdin
      → program stdin ≡ ok bytes
      → (run : Ran bytes) × Attests stdin run.before × Attests stdin run.out.new_state
  unfolding program
  program-Ran [] bytes w e = cc
  program-Ran (batch b ∷ rest) bytes w e = cc
  program-Ran (state s ∷ []) bytes w e = cc
  program-Ran (state s ∷ state t ∷ rest) bytes w e = cc
  program-Ran (state s ∷ batch b ∷ rest) bytes w e = elim (Result-cases (apply_batch s b)) [
    | inr (d, p) ↦ absurd (ground arith)
    | inl (out, p) ↦
        let (_, left, _) = AllAccept-apply_batch s b out p in
        (
          record {
            before = s;
            run = b;
            out = out;
            entries = w.0;
            txs = w.1.0;
            applied = p;
            committed = ground arith;
          },
          inl refl,
          inr left,
        )
  ]
