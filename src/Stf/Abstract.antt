-- ===== src/Stf/Abstract.antt =====
-- What crates/stf/src/lib.rs promises, on a ledger that is a function from addresses to accounts and
-- knows of no vector, no order and no search.
use zk_rollup.Base.{
  ◌+◌, ◌-◌, ◌≤◌, ◌<◌, ◌≡◌, ◌≢◌, ◌↔◌, refl, sym, ◌∙◌, List, [], ◌∷◌, ok, arith, inl, inr, Bool-cases,
}
use zk_rollup.Types.Address.{
  Address, addr_eq, addr_eq_refl, eq_of_addr_eq, addr_eq_of_ne, ne_of_addr_eq,
}
use zk_rollup.Types.Bytes.{u64_mod}
use zk_rollup.Types.Crypto.{Crypto}
use zk_rollup.Types.Search.{Account}
use zk_rollup.Types.Search.Locate.{IsOrdered}
use zk_rollup.Types.State.{State, get}
use zk_rollup.Types.Tx.{Tx, Batch, signing_hash, recover_address}
use zk_rollup.Stf.{apply_batch, ApplyOutput, wrapping_add}
use zk_rollup.Stf.Transfer.{Accepts, transferred}
use zk_rollup.Stf.Effect.{get-transferred, transferred-IsOrdered}
use zk_rollup.Stf.Run.{AllAccept, after, values_of, AllAccept-apply_batch, apply_batch-AllAccept}

abbrev pub Ledger : Type 0
Ledger = Address → Account

module _ ⦃c : Crypto⦄ where
  -- a signed transfer takes the ledger `l` to `m`
  pub record Moves (tx : Tx) (l m : Ledger) : Type 0 where
    pub distinct : tx.from ≢ tx.to
    pub signed : recover_address (signing_hash tx) tx.signature ≡ ok tx.from
    pub in_turn : (l tx.from).nonce ≡ tx.nonce
    pub funded : tx.amount ≤ (l tx.from).balance
    pub room : (l tx.to).balance + tx.amount < u64_mod
    pub sender : m tx.from ≡ record {
      balance = (l tx.from).balance - tx.amount;
      nonce = wrapping_add (l tx.from).nonce 1;
    }
    pub recipient :
        m tx.to ≡ record { balance = (l tx.to).balance + tx.amount; nonce = (l tx.to).nonce }
    pub others : (k : Address) → k ≢ tx.from → k ≢ tx.to → m k ≡ l k

  -- the transactions one after the other
  abbrev pub AllMove : List Tx → Ledger → Ledger → Type 0
  AllMove [] l n = l ≡ n
  AllMove (tx ∷ txs) l n = (m : Ledger) × Moves tx l m × AllMove txs m n

  transferred-Moves :
      (s : State) (tx : Tx)
      → IsOrdered s.accounts
      → Accepts s tx
      → Moves tx (get s) (get (transferred s tx))
  transferred-Moves s tx o a = record {
    distinct = ne_of_addr_eq tx.from tx.to a.distinct;
    signed = a.signed;
    in_turn = a.in_turn;
    funded = a.funded;
    room = a.room;
    sender = ground (arith, get-transferred s tx tx.from o, a.distinct, addr_eq_refl tx.from);
    recipient = ground (arith, get-transferred s tx tx.to o, addr_eq_refl tx.to);
    others = λ k p q.
        ground
          (arith, get-transferred s tx k o, addr_eq_of_ne k tx.from p, addr_eq_of_ne k tx.to q);
  }

  Moves-Accepts : (s : State) (tx : Tx) (m : Ledger) → Moves tx (get s) m → Accepts s tx
  Moves-Accepts s tx m h = record {
    distinct = addr_eq_of_ne tx.from tx.to h.distinct;
    signed = h.signed;
    in_turn = h.in_turn;
    funded = h.funded;
    room = h.room;
  }

  -- a transfer leaves one ledger only
  Moves-functional :
      (tx : Tx) (l m n : Ledger) (k : Address) → Moves tx l m → Moves tx l n → m k ≡ n k
  Moves-functional tx l m n k g h = elim (Bool-cases (addr_eq k tx.from)) [
    | inl p ↦ rw (eq_of_addr_eq k tx.from p) (g.sender ∙ sym h.sender)
    | inr p ↦ elim (Bool-cases (addr_eq k tx.to)) [
      | inl q ↦ rw (eq_of_addr_eq k tx.to q) (g.recipient ∙ sym h.recipient)
      | inr q ↦
          let f = ne_of_addr_eq k tx.from p in
          let t = ne_of_addr_eq k tx.to q in g.others k f t ∙ sym (h.others k f t)
    ]
  ]

  AllAccept-AllMove :
      (txs : List Tx) (s : State)
      → IsOrdered s.accounts
      → AllAccept txs s
      → AllMove txs (get s) (get (after txs s))
  AllAccept-AllMove [] s o a = refl
  AllAccept-AllMove (tx ∷ txs) s o a = (
    get (transferred s tx),
    transferred-Moves s tx o a.0,
    AllAccept-AllMove txs (transferred s tx) (transferred-IsOrdered s tx o) a.1,
  )

  AllMove-AllAccept :
      (txs : List Tx) (s : State) (n : Ledger)
      → IsOrdered s.accounts
      → AllMove txs (get s) n
      → AllAccept txs s × (n ≡ get (after txs s))
  AllMove-AllAccept [] s n o h = (tt, sym h)
  AllMove-AllAccept (tx ∷ txs) s n o (m, moved, rest) =
      let a = Moves-Accepts s tx m moved in
      let same : m ≡ get (transferred s tx) = λ i k.
        Moves-functional tx (get s) m (get (transferred s tx)) k moved (transferred-Moves s tx o a)
          i in
      let (b, last) =
        AllMove-AllAccept txs (transferred s tx) n (transferred-IsOrdered s tx o)
          (rw same at rest) in
      ((a, b), last)

  -- On an ordered vector of accounts `apply_batch` implements the abstract ledger: the transactions move
  -- the ledger of the state to another ledger exactly if the batch is applied and the state that it
  -- leaves has that ledger.
  pub apply_batch-AllMove :
      (s : State) (b : Batch) (n : Ledger)
      → IsOrdered s.accounts
      → AllMove b.txs (get s) n
        ↔ ((out : ApplyOutput) × (apply_batch s b ≡ ok out) × (get out.new_state ≡ n))
  apply_batch-AllMove s b n o = (
    λ h.
        let (a, last) = AllMove-AllAccept b.txs s n o h in
        (
          record { new_state = after b.txs s; public_values = values_of b.txs s },
          apply_batch-AllAccept s b a,
          sym last,
        ),
    λ h.
        let (out, e, last) = h in
        let (a, left, _) = AllAccept-apply_batch s b out e in
        rw (← last) (rw left (AllAccept-AllMove b.txs s o a)),
  )
