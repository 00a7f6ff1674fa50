-- ===== src/Tests/Codec.antt =====
-- Texts for the requests and responses in place of JSON: numbers in a row, lists after their length.
use zk_rollup.Base.{
  ℕ, zero, suc, ◌≡◌, refl, List, [], ◌∷◌, length, Option, none, some, Result, ok, err,
}
use zk_rollup.Types.Text.{Text}
use zk_rollup.Types.Search.{Entry}
use zk_rollup.Types.Tx.{Tx}

abbrev Writer : Type 0 → Type 0
Writer A = A → Text → Text

abbrev Reader : Type 0 → Type 0
Reader A = Text → Option (A × Text)

abbrev Reads : {A : Type 0} → Writer A → Reader A → Type 0
Reads {A} w r = (x : A) (t : Text) → r (w x t) ≡ some (x, t)

abbrev write_number : Writer ℕ
write_number n t = n ∷ t

abbrev read_number : Reader ℕ
read_number [] = none
read_number (n ∷ t) = some (n, t)

abbrev then_read : {A B : Type 0} → Option (A × Text) → (A → Text → Option B) → Option B
then_read none f = none
then_read (some (x, t)) f = f x t

module _ {A : Type 0} (w : Writer A) (r : Reader A) where
  abbrev write_all : Writer (List A)
  write_all [] t = t
  write_all (x ∷ xs) t = w x (write_all xs t)

  abbrev write_list : Writer (List A)
  write_list xs t = length xs ∷ write_all xs t

  abbrev read_times : ℕ → Reader (List A)
  read_times zero t = some ([], t)
  read_times (suc n) t =
      then_read (r t) (λ x t1. then_read (read_times n t1) (λ xs t2. some (x ∷ xs, t2)))

  abbrev read_list : Reader (List A)
  read_list [] = none
  read_list (n ∷ t) = read_times n t

  read_times-write_all :
      Reads w r → (xs : List A) (t : Text) → read_times (length xs) (write_all xs t) ≡ some (xs, t)
  read_times-write_all h [] t = refl
  read_times-write_all h (x ∷ xs) t =
      rw (h x (write_all xs t)) (rw (read_times-write_all h xs t) refl)

  pub read_list-write_list : Reads w r → Reads write_list read_list
  read_list-write_list h xs t = read_times-write_all h xs t

module _ {A B : Type 0} (w : Writer A) (r : Reader A) (v : Writer B) (q : Reader B) where
  abbrev pub write_pair : Writer (A × B)
  write_pair (a, b) t = w a (v b t)

  abbrev pub read_pair : Reader (A × B)
  read_pair t = then_read (r t) (λ a t1. then_read (q t1) (λ b t2. some ((a, b), t2)))

  pub read_pair-write_pair : Reads w r → Reads v q → Reads write_pair read_pair
  read_pair-write_pair h k (a, b) t = rw (h a (v b t)) (rw (k b t) refl)

-- what is left of the text is not read
abbrev pub whole : {A B : Type 0} → (A → B) → Option (A × Text) → Result B (Unit {0})
whole f none = err tt
whole f (some (x, t)) = ok (f x)

abbrev write_text : Writer Text
write_text = write_list write_number read_number

abbrev read_text : Reader Text
read_text = read_list write_number read_number

text-Reads : Reads write_text read_text
text-Reads = read_list-write_list write_number read_number (λ x t. refl)

-- an entry of the state: address, balance, nonce
abbrev pub write_entry : Writer Entry
write_entry (k, a) t = write_text k.bytes (a.balance ∷ a.nonce ∷ t)

abbrev entry_of : Option (Text × Text) → Option (Entry × Text)
entry_of (some (k, x ∷ y ∷ t)) = some ((record { bytes = k }, record { balance = x; nonce = y }), t)
entry_of (some (k, t)) = none
entry_of none = none

abbrev pub read_entry : Reader Entry
read_entry t = entry_of (read_text t)

pub entry-Reads : Reads write_entry read_entry
entry-Reads (k, a) t = rw (text-Reads k.bytes (a.balance ∷ a.nonce ∷ t)) refl

abbrev pub write_texts : Writer (List Text)
write_texts = write_list write_text read_text

abbrev pub read_texts : Reader (List Text)
read_texts = read_list write_text read_text

pub texts_read : Reads write_texts read_texts
texts_read = read_list-write_list write_text read_text text-Reads

-- a transaction: its byte strings, amount, nonce
abbrev pub write_tx : Writer Tx
write_tx x t =
    write_text x.from.bytes
      (write_text x.to.bytes (write_text x.signature (x.amount ∷ x.nonce ∷ t)))

abbrev pub read_tx : Reader Tx
read_tx t = then_read (read_text t) (λ from t1. then_read (read_text t1) (λ to t2.
    then_read (read_text t2) (λ signature t3. then_read (read_number t3) (λ amount t4.
      then_read (read_number t4) (λ nonce t5. some (
        record {
          from = record { bytes = from };
          to = record { bytes = to };
          amount = amount;
          nonce = nonce;
          signature = signature;
        },
        t5,
      ))))))

pub tx-Reads : Reads write_tx read_tx
tx-Reads x t =
    rw (text-Reads x.from.bytes _)
      (rw (text-Reads x.to.bytes _) (rw (text-Reads x.signature (x.amount ∷ x.nonce ∷ t)) refl))

abbrev pub write_entries : Writer (List Entry)
write_entries = write_list write_entry read_entry

abbrev pub read_entries : Reader (List Entry)
read_entries = read_list write_entry read_entry

abbrev pub write_txs : Writer (List Tx)
write_txs = write_list write_tx read_tx

abbrev pub read_txs : Reader (List Tx)
read_txs = read_list write_tx read_tx
