-- ===== src/Tests/Serde.antt =====
-- The JSON of the sequencer and of the demo client, as lists of texts: both sides read what the other
-- writes.
use zk_rollup.Base.{ℕ, ◌≡◌, ◌==◌, refl, [], ◌∷◌, List, Bool, true, false, none, ok}
use zk_rollup.Types.Text.{Text}
use zk_rollup.Routes.{TxRequest, TxResponse, BatchResponse}
use zk_rollup.Web.Sequencer.{Serde}
use zk_rollup.Drivers.Wire.{ClientSerde}
use zk_rollup.Drivers.Wire.Reading.{Agrees}
use zk_rollup.Tests.Crates.{hex}
use zk_rollup.Tests.Codec.{write_texts, read_texts, texts_read, whole}

abbrev flag : Bool → ℕ
flag true = 1
flag false = 0

abbrev is_set : ℕ → Bool
is_set n = n == 1

is_set-flag : (b : Bool) → is_set (flag b) ≡ b
is_set-flag true = refl
is_set-flag false = refl

abbrev request_texts : TxRequest → List Text
request_texts r = r.from ∷ r.to ∷ (r.amount ∷ []) ∷ (r.nonce ∷ []) ∷ r.signature ∷ []

abbrev request_from : List Text → TxRequest
request_from (f ∷ t ∷ (a ∷ []) ∷ (n ∷ []) ∷ s ∷ []) = record {
  from = f;
  to = t;
  amount = a;
  nonce = n;
  signature = s;
}
request_from l = record { from = []; to = []; amount = 0; nonce = 0; signature = [] }

abbrev response_texts : TxResponse → List Text
response_texts r = (flag r.accepted ∷ []) ∷ (r.mempool_size ∷ []) ∷ r.speculative_root ∷ []

abbrev response_from : List Text → TxResponse
response_from ((a ∷ []) ∷ (n ∷ []) ∷ root ∷ []) = record {
  accepted = is_set a;
  mempool_size = n;
  speculative_root = root;
}
response_from l = record { accepted = false; mempool_size = 0; speculative_root = [] }

abbrev batch_texts : BatchResponse → List Text
batch_texts r =
    (r.batch_number ∷ [])
    ∷ (r.txs ∷ [])
    ∷ r.prev_root
    ∷ r.new_root
    ∷ r.batch_hash
    ∷ r.l1_tx_hash
    ∷ (r.l1_block ∷ [])
    ∷ (r.gas_used ∷ [])
    ∷ []

abbrev batch_from : List Text → BatchResponse
batch_from ((n ∷ []) ∷ (t ∷ []) ∷ p ∷ r ∷ b ∷ h ∷ (k ∷ []) ∷ (g ∷ []) ∷ []) = record {
  batch_number = n;
  txs = t;
  prev_root = p;
  new_root = r;
  batch_hash = b;
  l1_tx_hash = h;
  l1_block = k;
  gas_used = g;
}
batch_from l = record {
  batch_number = 0;
  txs = 0;
  prev_root = [];
  new_root = [];
  batch_hash = [];
  l1_tx_hash = [];
  l1_block = 0;
  gas_used = 0;
}

instance abbrev pub serde : Serde
serde = record {
  Error = Unit {0};
  write_info = λ r. r.canonical_root;
  write_root = λ r. r.root;
  write_account = λ r. r.address;
  write_mempool = λ r. [];
  write_tx = λ r. write_texts (response_texts r) [];
  write_batch = λ r. write_texts (batch_texts r) [];
  write_error = λ m. [];
  read_tx = λ body. whole request_from (read_texts body);
  rejection = λ e. record { status = 422; body = none };
}

instance abbrev pub client_serde : ClientSerde
client_serde = record {
  Error = Unit {0};
  Value = Text;
  write_tx = λ r. write_texts (request_texts r) [];
  read_tx = λ body. whole response_from (read_texts body);
  read_batch = λ body. whole batch_from (read_texts body);
  read_value = λ body. ok body;
}

response_reads : (r : TxResponse) → client_serde.read_tx (serde.write_tx r) ≡ ok r
response_reads r = rw (texts_read (response_texts r) [], is_set-flag r.accepted) refl

pub agrees : Agrees client_serde serde
agrees = record {
  value_of = λ r. r.root;
  tx_read = λ r. rw (texts_read (request_texts r) []) refl;
  tx_answered = response_reads;
  batch_answered = λ r. rw (texts_read (batch_texts r) []) refl;
  root_answered = λ r. refl;
}
