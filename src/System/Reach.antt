-- ===== src/System/Reach.antt =====
-- Every interleaving of requests, of calls of POST /batch and of their critical sections.
use zk_rollup.Base.{◌≡◌, ◌⊎◌, inl, inr, ◌++◌, All-split, All-replace, ok, arith}
use zk_rollup.Types.Address.{Address}
use zk_rollup.Types.Bytes.{Hash}
use zk_rollup.Types.Crypto.{Crypto, IsLawful}
use zk_rollup.Types.State.{State, merkle_root}
use zk_rollup.Types.State.Binding.{RootCollision, RootCollision-imp}
use zk_rollup.Types.State.Laws.{IsValid}
use zk_rollup.Types.Text.{Hex, IsLawfulHex}
use zk_rollup.Prover.{Abi, IsLawfulAbi, Sdk}
use zk_rollup.Prover.Honest.{RunsProgram}
use zk_rollup.Sequencer.{from_genesis}
use zk_rollup.Sequencer.Consistency.{from_genesis-IsConsistent}
use zk_rollup.Rollup.{Verifier, Rollup, deploy}
use zk_rollup.System.{System, proving, submitting, Step, booted}
use zk_rollup.System.Flight.{InFlight, prove-InFlight}
use zk_rollup.System.Invariant.{IsCoherent, Roomy, Seen, restored-IsCoherent}
use zk_rollup.System.Acceptance.{accepted-IsCoherent, commit-IsCoherent}
use zk_rollup.System.Requests.{post-IsCoherent, begin-IsCoherent}

module _ ⦃c : Crypto⦄ ⦃h : Hex⦄ ⦃a : Abi⦄ ⦃d : Sdk⦄ ⦃v : Verifier⦄ where
  -- the states that executions reach in which no nonce wraps
  pub data Reach (init : System) : System → Type 0 where
    start : Reach init init
    later : {s t : System} → Reach init s → Roomy s → Step s t → Reach init t

  -- the states whose roots come up anywhere in an execution
  abbrev pub SeenIn : {init s : System} → Reach init s → State → Type 0
  SeenIn {init} start t = Seen init t
  SeenIn {init} {s} (later before roomy step) t = SeenIn before t ⊎ Seen s t

  pub Seen-SeenIn : {init s : System} (reach : Reach init s) (t : State) → Seen s t → SeenIn reach t
  Seen-SeenIn start t h = h
  Seen-SeenIn (later before roomy step) t h = inr h

  pub Step-IsCoherent :
      {s t : System}
      → IsLawful c
      → IsLawfulHex h
      → IsLawfulAbi a
      → RunsProgram d
      → Roomy s
      → Step s t
      → IsCoherent s
      → IsCoherent t ⊎ RootCollision (Seen s)
  Step-IsCoherent law hex abi runs roomy (Step.post req p q) k =
      inl (post-IsCoherent _ req hex p q k)
  Step-IsCoherent law hex abi runs roomy (Step.begin prev batch next e) k =
      inl (begin-IsCoherent _ prev batch next e k)
  Step-IsCoherent {s} law hex abi runs roomy
        (Step.proved xs ys prev batch alive mode p pv proof root e f g) k =
      let old = proving prev batch in
      let flying = rw e at k.flying in
      let (st, _) = All-split (InFlight s.sequencer.canonical_state) xs ys old flying in
      let new =
        prove-InFlight s.sequencer.canonical_state prev batch alive mode p pv proof root law hex abi
          runs st f g in
      inl (record {
        consistent = k.consistent;
        valid = k.valid;
        waiting = k.waiting;
        flying =
            All-replace (InFlight s.sequencer.canonical_state) xs ys old
              (submitting prev batch pv proof root) new flying;
        phase = k.phase;
      })
  Step-IsCoherent {s} law hex abi runs roomy (Step.not_proved xs ys prev batch e) k =
      let (st, rest) =
        All-split (InFlight s.sequencer.canonical_state) xs ys (proving prev batch)
          (rw e at k.flying) in
      inl (restored-IsCoherent s batch (xs ++ ys) st.txs rest k)
  Step-IsCoherent {s} law hex abi runs roomy (Step.undecodable xs ys prev batch p x e f) k =
      let (st, rest) =
        All-split (InFlight s.sequencer.canonical_state) xs ys (proving prev batch)
          (rw e at k.flying) in
      inl (record {
        consistent = k.consistent;
        valid = k.valid;
        waiting = k.waiting;
        flying = rest;
        phase = k.phase;
      })
  Step-IsCoherent law hex abi runs roomy
        (Step.accepted xs ys prev batch pv proof root event next e f) k =
      accepted-IsCoherent _ xs ys prev batch pv proof root event next law abi roomy e f k
  Step-IsCoherent {s} law hex abi runs roomy (Step.not_accepted xs ys prev batch pv proof root e)
        k =
      let (st, rest) =
        All-split (InFlight s.sequencer.canonical_state) xs ys (submitting prev batch pv proof root)
          (rw e at k.flying) in
      inl (restored-IsCoherent s batch (xs ++ ys) st.0.txs rest k)
  Step-IsCoherent law hex abi runs roomy (Step.commit xs ys batch root e) k =
      inl (commit-IsCoherent _ xs ys batch root roomy e k)

  pub booted-IsCoherent :
      (verifier : Address) (key : Hash) (genesis : State) (r : Rollup)
      → IsValid genesis
      → deploy verifier key (merkle_root genesis) ≡ ok r
      → IsCoherent (booted genesis r)
  unfolding deploy from_genesis
  booted-IsCoherent verifier key genesis r g e =
      let root : r.state_root ≡ merkle_root genesis = ground arith in
      let count : r.batch_count ≡ 0 = ground arith in
      record {
        consistent = from_genesis-IsConsistent genesis;
        valid = g;
        waiting = tt;
        flying = tt;
        phase = record { same_root = root; same_count = count };
      }

  pub reached :
      {init s : System}
      → IsLawful c
      → IsLawfulHex h
      → IsLawfulAbi a
      → RunsProgram d
      → IsCoherent init
      → (reach : Reach init s) → IsCoherent s ⊎ RootCollision (SeenIn reach)
  reached law hex abi runs k start = inl k
  reached law hex abi runs k (later before roomy step) = elim (reached law hex abi runs k before) [
    | inr collision ↦ inr (RootCollision-imp (λ t. inl) collision)
    | inl k' ↦ elim (Step-IsCoherent law hex abi runs roomy step k') [
      | inl k'' ↦ inl k''
      | inr collision ↦ inr (RootCollision-imp (λ t m. inl (Seen-SeenIn before t m)) collision)
    ]
  ]
