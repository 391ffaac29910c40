-- ===== src/Core/Examples.antt =====
-- The hash chain over a small hash.
use fuzz_helm.Base.{ℕ, ◌+◌, ◌*◌, ◌≡◌, ◌≢◌, ◌↔◌, refl, true, ◌==◌, none, some, List, [], ◌∷◌, arith}
use fuzz_helm.Base.Int.{pos}
use fuzz_helm.Core.Value.{Value, Fields}
use fuzz_helm.Core.Journal.{
  Backend, EventJournal, JournalEntry, verify_chain, entry_hash, canonical_fields,
}
use fuzz_helm.Core.Journal.Chain.{
  Call, Chained, append_all, verify_chain-Chained, append_all-verify, tampered-found,
}

-- A number for a payload: the integers at its keys, in the order of the keys.
abbrev weigh : Fields → ℕ
weigh Fields.end = 0
weigh (Fields.field k (Value.int (pos n)) rest) = 1 + n + 10 * weigh rest
weigh (Fields.field k v rest) = 1 + 10 * weigh rest

same_number : (a b : ℕ) → (a == b) ≡ true → a ≡ b
same_number a b h = ground arith

same_self : (a : ℕ) → (a == a) ≡ true
same_self a = ground arith

abbrev small : Backend
small = record {
  Hash = ℕ;
  Bytes = ℕ;
  same = λ a b. a == b;
  same_refl = same_self;
  same_eq = same_number;
  dec_str = λ d. "";
  dumps = λ seq event ingest kind payload. seq + weigh payload;
  blake2b = λ prev bytes. 7 * prev + bytes;
}

abbrev empty_journal : EventJournal small
empty_journal = record {
  run_id = "run";
  sink = none;
  head = 0;
  next_seq = 0;
  keep = true;
  entries = [];
}

abbrev paid : ℕ → Fields
paid n = Fields.field "paid" (Value.int (pos n)) Fields.end

abbrev calls : List (Call small)
calls = ("fill", paid 3, pos 1, pos 1) ∷ ("fill", paid 5, pos 2, pos 2) ∷ []

append_all-verify_example :
    verify_chain small (append_all small empty_journal calls).entries 0 ≡ none
append_all-verify_example = append_all-verify small empty_journal calls refl refl

abbrev entry : ℕ → ℕ → ℕ → ℕ → JournalEntry small
entry seq n prev hash = record {
  run_id = "run";
  seq = seq;
  ts_event_ns = pos 1;
  ts_ingest_ns = pos 1;
  kind = "fill";
  payload = paid n;
  prev_hash = prev;
  hash = hash;
}

abbrev first : JournalEntry small
first = entry 0 3 0 4

abbrev second : JournalEntry small
second = entry 1 5 4 35

verify_chain-Chained_example :
    (verify_chain small (first ∷ second ∷ []) 0 ≡ none) ↔ Chained small 0 (first ∷ second ∷ [])
verify_chain-Chained_example = verify_chain-Chained small 0 (first ∷ second ∷ [])

intact : verify_chain small (first ∷ second ∷ []) 0 ≡ none
unfolding verify_chain entry_hash
intact = refl

other_hash :
    entry_hash small 4 1 (pos 1) (pos 1) "fill" (paid 6)
    ≢ entry_hash small 4 1 (pos 1) (pos 1) "fill" (paid 5)
unfolding entry_hash canonical_fields
other_hash = λ e. omega (arith, e)

tampered-found_example :
    verify_chain small (first ∷ record second { payload = paid 6 } ∷ []) 0 ≡ some 1
tampered-found_example = tampered-found small 0 (first ∷ []) [] second (paid 6) intact other_hash
