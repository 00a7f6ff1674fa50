-- ===== src/Web/Requests.antt =====
-- What a request to the sequencer can do, whatever its method, path and body:
-- crates/sequencer/src/routes.rs.
use zk_rollup.Types.Tx.{Tx}
use zk_rollup.Routes.Effects.{Outcome, trigger_batch-Outcome}
use zk_rollup.Base.{◌≡◌, ◌⊎◌, inl, inr, refl, ap, [], ◌∷◌, List, Result-cases, arith, Any}
use zk_rollup.Types.Address.{Address}
use zk_rollup.Types.Crypto.{Crypto}
use zk_rollup.Types.Text.{Text, Hex}
use zk_rollup.Sequencer.{SequencerState, readmit}
use zk_rollup.Sequencer.Consistency.{IsConsistent, admit_tx-IsConsistent}
use zk_rollup.Sequencer.Settlement.{SameCanonical, admit_tx-SameCanonical}
use zk_rollup.Routes.{Outside, TxRequest, into_tx, submit_tx, trigger_batch}
use zk_rollup.System.Requests.{submit_tx_refused, submit_tx_read}
use zk_rollup.Clients.Http.{Response}
use zk_rollup.Clients.L1.{Alloy}
use zk_rollup.Clients.Startup.{AppCtx}
use zk_rollup.Web.Axum.{
  Axum, IsLawfulAxum, Found, get, post, Method, found, not_found, method_not_allowed,
}
use zk_rollup.Web.Sequencer.{
  Handler, get_health, get_info, get_root, get_account, get_mempool, post_tx, post_batch, router,
  Serde, into_response, answer, serve,
}

-- one of the three outcomes of a dispatch
Found-cases :
    {H : Type 0} (f : Found H)
    → ((h : H) × (ps : List Text) × (f ≡ found h ps)) ⊎ ((f ≡ not_found) ⊎ (f ≡ method_not_allowed))
Found-cases (found h ps) = inl (h, ps, refl)
Found-cases not_found = inr (inl refl)
Found-cases method_not_allowed = inr (inr refl)

-- the handlers that only read
abbrev Reads : Handler → Type 0
Reads post_tx = ⊥
Reads post_batch = ⊥
Reads _ = Unit

-- the routes of the table for GET
router-Reads :
    (handler : Handler) → Any (λ r. (r.method ≡ get) × (r.handler ≡ handler)) router → Reads handler
router-Reads get_health a = tt
router-Reads get_info a = tt
router-Reads get_root a = tt
router-Reads get_account a = tt
router-Reads get_mempool a = tt
router-Reads post_tx a = ground arith
router-Reads post_batch a = ground arith

module _ ⦃c : Crypto⦄ ⦃h : Hex⦄ ⦃y : Alloy⦄ ⦃x : Axum⦄ ⦃j : Serde⦄ (show_address : Address → Text)
    (o : Outside) where
  answer-Reads :
      (handler : Handler) (ps : List Text) (body : Text) (ctx : AppCtx)
      → Reads handler
      → (answer show_address o handler ps body ctx).1 ≡ ctx
  unfolding answer
  answer-Reads get_health ps body ctx r = refl
  answer-Reads get_info ps body ctx r = refl
  answer-Reads get_root ps body ctx r = refl
  answer-Reads get_account [] body ctx r = refl
  answer-Reads get_account (addr ∷ ps) body ctx r = refl
  answer-Reads get_mempool ps body ctx r = refl
  answer-Reads post_tx ps body ctx r = absurd r
  answer-Reads post_batch ps body ctx r = absurd r

  serve-get :
      (path body : Text) (ctx : AppCtx)
      → IsLawfulAxum x
      → (serve show_address o get path body ctx).1 ≡ ctx
  unfolding serve
  serve-get path body ctx law = elim (Found-cases (x.dispatch router get path)) [
    | inl (handler, ps, p) ↦
        rw (serve, p)
          (answer-Reads handler ps body ctx
            (router-Reads handler (law.dispatch_found router get path handler ps p)))
    | inr (inl p) ↦ rw (serve, p) refl
    | inr (inr p) ↦ rw (serve, p) refl
  ]

  pub serve_found :
      (method : Method) (path body : Text) (ctx : AppCtx) (handler : Handler) (ps : List Text)
      → x.dispatch router method path ≡ found handler ps
      → serve show_address o method path body ctx ≡ answer show_address o handler ps body ctx
  unfolding serve
  serve_found method path body ctx handler ps p = rw (serve, p) refl

  -- What a request leaves of the context, unless it is a batch: everything but the mempool and the
  -- speculative state.
  pub record Keeps (ctx next : AppCtx) : Type 0 where
    pub canonical : SameCanonical ctx.state next.state
    pub consistent : IsConsistent next.state
    pub clients : (next.prover ≡ ctx.prover) × (next.l1 ≡ ctx.l1)
    pub key : (next.program_vkey ≡ ctx.program_vkey) × (next.proof_mode ≡ ctx.proof_mode)

  unchanged : (ctx next : AppCtx) → IsConsistent ctx.state → next ≡ ctx → Keeps ctx next
  unchanged ctx next k p = rw p (record {
    canonical = record { same_state = refl; same_root = refl; same_count = refl };
    consistent = k;
    clients = (refl, refl);
    key = (refl, refl);
  })

  with_state :
      (ctx : AppCtx) (next : SequencerState)
      → SameCanonical ctx.state next
      → IsConsistent next
      → Keeps ctx (record ctx { state = next })
  with_state ctx next same k = record {
    canonical = same;
    consistent = k;
    clients = (refl, refl);
    key = (refl, refl);
  }

  posted-Keeps :
      (req : TxRequest) (ctx : AppCtx)
      → IsConsistent ctx.state
      → Keeps ctx (record ctx { state = (submit_tx req ctx.state).1 })
  posted-Keeps req ctx k = elim (Result-cases (into_tx req)) [
    | inr (e, p) ↦
        unchanged ctx _ k (
          ap (λ (s : SequencerState). record ctx { state = s }) (submit_tx_refused req ctx.state p))
    | inl (tx, p) ↦ rw (submit_tx_read req ctx.state tx p) (
        with_state ctx _ (admit_tx-SameCanonical tx ctx.state)
          (admit_tx-IsConsistent tx ctx.state k))
  ]

  answer_posted :
      (ps : List Text) (body : Text) (ctx : AppCtx)
      → IsConsistent ctx.state
      → Keeps ctx (answer show_address o post_tx ps body ctx).1
  unfolding answer
  answer_posted ps body ctx k = elim (Result-cases (j.read_tx body)) [
    | inr (e, p) ↦ rw (answer, p) (unchanged ctx ctx k refl)
    | inl (req, p) ↦ rw (answer, p) (posted-Keeps req ctx k)
  ]

  -- what POST /batch answers and leaves
  abbrev pub batched : AppCtx → Response × AppCtx
  batched ctx =
      let (r, next) = trigger_batch o ctx.state in
      (into_response j.write_batch r, record ctx { state = next })

  answer-batched :
      (ps : List Text) (body : Text) (ctx : AppCtx)
      → answer show_address o post_batch ps body ctx ≡ batched ctx
  unfolding answer
  answer-batched ps body ctx = refl

  answer-Keeps :
      (handler : Handler) (ps : List Text) (body : Text) (ctx : AppCtx)
      → IsConsistent ctx.state
      → Keeps ctx (answer show_address o handler ps body ctx).1
        ⊎ (answer show_address o handler ps body ctx ≡ batched ctx)
  answer-Keeps post_tx ps body ctx k = inl (answer_posted ps body ctx k)
  answer-Keeps post_batch ps body ctx k = inr (answer-batched ps body ctx)
  answer-Keeps get_health ps body ctx k =
      inl (unchanged ctx _ k (answer-Reads get_health ps body ctx tt))
  answer-Keeps get_info ps body ctx k =
      inl (unchanged ctx _ k (answer-Reads get_info ps body ctx tt))
  answer-Keeps get_root ps body ctx k =
      inl (unchanged ctx _ k (answer-Reads get_root ps body ctx tt))
  answer-Keeps get_account ps body ctx k =
      inl (unchanged ctx _ k (answer-Reads get_account ps body ctx tt))
  answer-Keeps get_mempool ps body ctx k =
      inl (unchanged ctx _ k (answer-Reads get_mempool ps body ctx tt))

  serve-Keeps :
      (method : Method) (path body : Text) (ctx : AppCtx)
      → IsConsistent ctx.state
      → Keeps ctx (serve show_address o method path body ctx).1
        ⊎ (serve show_address o method path body ctx ≡ batched ctx)
  unfolding serve
  serve-Keeps method path body ctx k = elim (Found-cases (x.dispatch router method path)) [
    | inl (handler, ps, p) ↦
        rw (serve_found method path body ctx handler ps p) (answer-Keeps handler ps body ctx k)
    | inr (inl p) ↦ inl (unchanged ctx _ k (rw (serve, p) refl))
    | inr (inr p) ↦ inl (unchanged ctx _ k (rw (serve, p) refl))
  ]

  -- Whatever request reaches a sequencer whose state is consistent, GET or POST, of any path and body,
  -- found in the table or not: it changes nothing at all; or it is a POST request which leaves the
  -- state consistent and changes neither the canonical state, its root and the number of batches,
  -- nor the clients, the key and the mode; or it is a POST request that the handler of /batch answers,
  -- with one of the three outcomes of that handler, while transactions are posted. A GET request
  -- changes nothing.
  pub serve_effects :
      (method : Method) (path body : Text) (ctx : AppCtx) (ts us vs : List Tx)
      → IsLawfulAxum x
      → IsConsistent ctx.state
      → ((t : SequencerState) → o.proving t ≡ readmit ts t)
      → ((t : SequencerState) → o.settling t ≡ readmit us t)
      → ((t : SequencerState) → o.responding t ≡ readmit vs t)
      → ((serve show_address o method path body ctx).1 ≡ ctx)
        ⊎ ((method ≡ post)
            × (Keeps ctx (serve show_address o method path body ctx).1
                ⊎ ((serve show_address o method path body ctx ≡ batched ctx)
                    × Outcome ctx.state (trigger_batch o ctx.state))))
  serve_effects get path body ctx ts us vs law k m1 m2 m3 = inl (serve-get path body ctx law)
  serve_effects post path body ctx ts us vs law k m1 m2 m3 =
      elim (serve-Keeps post path body ctx k) [
        | inl keeps ↦ inr (refl, inl keeps)
        | inr batch ↦ inr (refl, inr (batch, trigger_batch-Outcome o ctx.state ts us vs k m1 m2 m3))
      ]
