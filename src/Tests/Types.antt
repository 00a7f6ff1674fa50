-- ===== src/Tests/Types.antt =====
-- The data types and the state map at concrete inputs.
use zk_rollup.Types.Tx.{Tx, signing_hash, signing_payload}
use zk_rollup.Base.{◌+◌, ◌≡◌, ◌⊎◌, refl, ok, err, arith, false, [], ◌∷◌}
use zk_rollup.Types.Address.{addr_eq, IsAddress}
use zk_rollup.Types.Bytes.{bytes_eq, cmp_bytes}
use zk_rollup.Types.Crypto.{Collision}
use zk_rollup.Types.Search.{binary_search}
use zk_rollup.Types.Search.Locate.{binary_search-eq-locate, locate}
use zk_rollup.Types.State.{get, set, encode_accounts}
use zk_rollup.Types.State.Binding.{merkle_root_binding}
use zk_rollup.Types.State.Laws.{total, total-set}
use zk_rollup.Types.Tx.Binding.{
  batch_hash_binding, HashedFor, signing_hash_binding, SameTransfer, IsTx,
}
use zk_rollup.Tests.Crates.{crypto, crypto-IsLawful, hex}
use zk_rollup.Tests.Data.{
  alice, bob, carol, funds, two_accounts, payments, two_accounts-IsValid, payments-IsTx, pay_100,
}

search_bob : binary_search two_accounts.accounts bob ≡ ok 1
unfolding binary_search cmp_bytes
search_bob = refl

search_carol : binary_search two_accounts.accounts carol ≡ err 2
unfolding binary_search cmp_bytes
search_carol = refl

binary_search-eq-locate_example :
    binary_search two_accounts.accounts carol ≡ locate two_accounts.accounts carol
binary_search-eq-locate_example =
    binary_search-eq-locate two_accounts.accounts carol two_accounts-IsValid.ordered

total-set_example :
    total (set two_accounts bob (funds 5 0)) + (get two_accounts bob).balance
    ≡ total two_accounts + 5
total-set_example = total-set two_accounts bob (funds 5 0) two_accounts-IsValid.ordered

alice-ne-carol : addr_eq alice carol ≡ false
unfolding bytes_eq
alice-ne-carol = refl

merkle_root_binding_example :
    (two_accounts.accounts ≡ two_accounts.accounts)
    ⊎ Collision crypto
        (λ x. x ≡ encode_accounts two_accounts.accounts)
        (λ x. x ≡ encode_accounts two_accounts.accounts)
merkle_root_binding_example =
    merkle_root_binding two_accounts two_accounts two_accounts-IsValid.entries
      two_accounts-IsValid.entries refl

-- the same transfer under another signature
abbrev resigned : Tx
resigned = record pay_100 { signature = 7 ∷ [] }

resigned-IsTx : IsTx resigned
resigned-IsTx = omega arith

resigned_hash : signing_hash pay_100 ≡ signing_hash resigned
unfolding signing_hash
resigned_hash = refl

signing_hash_binding_example :
    SameTransfer pay_100 resigned
    ⊎ Collision crypto (λ x. x ≡ signing_payload pay_100) (λ x. x ≡ signing_payload resigned)
signing_hash_binding_example =
    signing_hash_binding pay_100 resigned payments-IsTx.0 resigned-IsTx resigned_hash

batch_hash_binding_example :
    (payments.txs ≡ payments.txs) ⊎ Collision crypto (HashedFor payments) (HashedFor payments)
batch_hash_binding_example =
    batch_hash_binding payments payments crypto-IsLawful payments-IsTx payments-IsTx refl

alice-IsAddress : IsAddress alice
alice-IsAddress = omega arith
