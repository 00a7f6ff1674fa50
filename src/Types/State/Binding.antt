-- ===== src/Types/State/Binding.antt =====
-- What a root commits to: states of 20-byte addresses and 64-bit words that have one root have the
-- same accounts, or their encodings are a collision of the hash.
use zk_rollup.Base.{
  ◌≡◌, refl, ap, sym, ◌∙◌, List, [], ◌∷◌, length, length-append, arith, ap₂, All, ◌⊎◌, inl, inr,
}
use zk_rollup.Types.Address.{address_path}
use zk_rollup.Types.Bytes.{to_be_bytes, Bytes}
use zk_rollup.Types.Crypto.{Crypto, Collision, same_hash, Collision-imp}
use zk_rollup.Types.Encoding.{append_injective, to_be_bytes_injective, length-to_be_bytes}
use zk_rollup.Types.Search.{Account, Entry}
use zk_rollup.Types.State.Laws.{IsEntry}
use zk_rollup.Types.State.{State, encode_accounts, encode_entry, merkle_root}

account_path : (x y : Account) → x.balance ≡ y.balance → x.nonce ≡ y.nonce → x ≡ y
account_path x y p q = λ i. record { balance = p i; nonce = q i }

length-encode_entry : (e : Entry) → IsEntry e → length (encode_entry e) ≡ 36
length-encode_entry (a, x) h =
    length-append a.bytes _
    ∙ omega (
      arith,
      length-append (to_be_bytes x.balance) (to_be_bytes x.nonce),
      length-to_be_bytes x.balance,
      length-to_be_bytes x.nonce,
      h.0.0,
    )

encode_entry_injective :
    (e d : Entry) → IsEntry e → IsEntry d → encode_entry e ≡ encode_entry d → e ≡ d
encode_entry_injective (a, x) (b, y) h k p =
    let (pa, rest) = append_injective a.bytes b.bytes (h.0.0 ∙ sym k.0.0) p in
    let (pb, pn) =
      append_injective (to_be_bytes x.balance) (to_be_bytes y.balance)
        (length-to_be_bytes x.balance ∙ sym (length-to_be_bytes y.balance)) rest in
    let pa' : a ≡ b = address_path a b pa in
    let px : x ≡ y =
      account_path x y (to_be_bytes_injective x.balance y.balance h.1 k.1 pb)
        (to_be_bytes_injective x.nonce y.nonce h.2 k.2 pn) in
    λ i. (pa' i, px i)

encode_accounts_injective :
    (l m : List Entry)
    → All IsEntry l
    → All IsEntry m
    → encode_accounts l ≡ encode_accounts m
    → l ≡ m
unfolding encode_accounts
encode_accounts_injective [] [] h k p = refl
encode_accounts_injective [] (d ∷ m) h k p = absurd (
    omega (
      arith,
      ap length p,
      length-append (encode_entry d) (encode_accounts m),
      length-encode_entry d k.0,
    ))
encode_accounts_injective (e ∷ l) [] h k p = absurd (
    omega (
      arith,
      ap length p,
      length-append (encode_entry e) (encode_accounts l),
      length-encode_entry e h.0,
    ))
encode_accounts_injective (e ∷ l) (d ∷ m) h k p =
    let (q, r) =
      append_injective (encode_entry e) (encode_entry d)
        (length-encode_entry e h.0 ∙ sym (length-encode_entry d k.0)) p in
    ap₂ ◌∷◌ (encode_entry_injective e d h.0 k.0 q) (encode_accounts_injective l m h.1 k.1 r)

module _ ⦃c : Crypto⦄ where
  -- Two states of 20-byte addresses and 64-bit words with the same root, ordered or not, have the
  -- same accounts, or else the encodings of just these two are different strings with one hash.
  pub merkle_root_binding :
      (s t : State)
      → All IsEntry s.accounts
      → All IsEntry t.accounts
      → merkle_root s ≡ merkle_root t
      → (s.accounts ≡ t.accounts)
        ⊎ Collision c (λ x. x ≡ encode_accounts s.accounts) (λ x. x ≡ encode_accounts t.accounts)
  unfolding merkle_root
  merkle_root_binding s t h k p =
      elim (same_hash (encode_accounts s.accounts) (encode_accounts t.accounts) p) [
        | inl same ↦ inl (encode_accounts_injective s.accounts t.accounts h k same)
        | inr collision ↦ inr collision
      ]

  -- the encoding of one of the states
  abbrev pub Encodes : (State → Type 0) → Bytes → Type 0
  Encodes P x = (s : State) × P s × (x ≡ encode_accounts s.accounts)

  -- Two of the states have different encodings with one hash.
  abbrev pub RootCollision : (State → Type 0) → Type 0
  RootCollision P = Collision c (Encodes P) (Encodes P)

  pub RootCollision-imp :
      {P Q : State → Type 0} → ((s : State) → P s → Q s) → RootCollision P → RootCollision Q
  RootCollision-imp f h =
      Collision-imp (λ x e. (e.0, f e.0 e.1, e.2)) (λ x e. (e.0, f e.0 e.1, e.2)) h

  -- among states of which some are named, equal roots mean equal states
  pub same_state :
      (P : State → Type 0) (s t : State)
      → P s
      → P t
      → All IsEntry s.accounts
      → All IsEntry t.accounts
      → merkle_root s ≡ merkle_root t
      → (s ≡ t) ⊎ RootCollision P
  same_state P s t p q h k e = elim (merkle_root_binding s t h k e) [
    | inl same ↦ inl (λ i. record { accounts = same i })
    | inr collision ↦ inr (Collision-imp (λ x r. (s, p, r)) (λ x r. (t, q, r)) collision)
  ]
