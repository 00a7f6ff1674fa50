-- ===== src/Tests/Json.antt =====
-- The JSON of the prover service and of its clients, as texts in a row.
use zk_rollup.Base.{◌≡◌, refl, List, [], ◌∷◌, none, ok}
use zk_rollup.Types.Text.{Text}
use zk_rollup.Types.Search.{Entry}
use zk_rollup.Types.Tx.{Tx}
use zk_rollup.Prover.Service.{WorkRequest, ProveResponse, InfoResponse, ExecuteResponse}
use zk_rollup.Clients.Http.{Json, IsLawfulJson}
use zk_rollup.Tests.Codec.{
  write_pair, read_pair, read_pair-write_pair, write_entries, read_entries, write_txs, read_txs,
  read_list-write_list, write_entry, read_entry, entry-Reads, write_tx, read_tx, tx-Reads, whole,
  write_texts, read_texts, texts_read,
}

abbrev work_of : List Entry × List Tx → WorkRequest
work_of (l, txs) = record { prev_state = record { accounts = l }; batch = record { txs = txs } }

abbrev prove_texts : ProveResponse → List Text
prove_texts r = r.proof ∷ r.public_values ∷ r.vkey ∷ r.prev_root ∷ r.new_root ∷ r.batch_hash ∷ []

abbrev no_answer : ProveResponse
no_answer = record {
  proof = [];
  public_values = [];
  vkey = [];
  prev_root = [];
  new_root = [];
  batch_hash = [];
}

abbrev prove_of : List Text → ProveResponse
prove_of (p ∷ v ∷ k ∷ a ∷ b ∷ c ∷ []) = record {
  proof = p;
  public_values = v;
  vkey = k;
  prev_root = a;
  new_root = b;
  batch_hash = c;
}
prove_of l = no_answer

abbrev info_of : List Text → InfoResponse
info_of (m ∷ k ∷ []) = record { mode = m; vkey = k }
info_of l = record { mode = []; vkey = [] }

abbrev execute_texts : ExecuteResponse → List Text
execute_texts r = r.public_values ∷ r.prev_root ∷ r.new_root ∷ r.batch_hash ∷ (r.cycles ∷ []) ∷ []

abbrev execute_of : List Text → ExecuteResponse
execute_of (v ∷ a ∷ b ∷ c ∷ (n ∷ []) ∷ []) = record {
  public_values = v;
  prev_root = a;
  new_root = b;
  batch_hash = c;
  cycles = n;
}
execute_of l = record {
  public_values = [];
  prev_root = [];
  new_root = [];
  batch_hash = [];
  cycles = 0;
}

instance abbrev pub json : Json
json = record {
  Error = Unit {0};
  write_work = λ x.
      write_pair write_entries read_entries write_txs read_txs (x.prev_state.accounts, x.batch.txs)
        [];
  read_work = λ t. whole work_of (read_pair write_entries read_entries write_txs read_txs t);
  write_prove = λ r. write_texts (prove_texts r) [];
  read_prove = λ t. whole prove_of (read_texts t);
  write_info = λ r. write_texts (r.mode ∷ r.vkey ∷ []) [];
  read_info = λ t. whole info_of (read_texts t);
  write_execute = λ r. write_texts (execute_texts r) [];
  read_execute = λ t. whole execute_of (read_texts t);
  write_vkey = λ r. write_texts (r.vkey ∷ []) [];
  rejection = λ e. record { status = 400; body = none };
}

work_reads : (x : WorkRequest) → json.read_work (json.write_work x) ≡ ok x
work_reads x =
    rw
      (read_pair-write_pair write_entries read_entries write_txs read_txs
        (read_list-write_list write_entry read_entry entry-Reads)
        (read_list-write_list write_tx read_tx tx-Reads) (x.prev_state.accounts, x.batch.txs) [])
      refl

prove_reads : (r : ProveResponse) → json.read_prove (json.write_prove r) ≡ ok r
prove_reads r = rw (texts_read (prove_texts r) []) refl

execute_reads : (r : ExecuteResponse) → json.read_execute (json.write_execute r) ≡ ok r
execute_reads r = rw (texts_read (execute_texts r) []) refl

info_reads : (r : InfoResponse) → json.read_info (json.write_info r) ≡ ok r
info_reads r = rw (texts_read (r.mode ∷ r.vkey ∷ []) []) refl

pub json-IsLawfulJson : IsLawfulJson json
json-IsLawfulJson = record {
  read_work-write_work = work_reads;
  read_prove-write_prove = prove_reads;
  read_info-write_info = info_reads;
  read_execute-write_execute = execute_reads;
}
