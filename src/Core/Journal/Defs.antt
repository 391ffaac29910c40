-- ===== src/Core/Journal/Defs.antt =====
-- core/journal.py, and `to_canonical` and `canonical_json` of core/digest.py on the payloads of `Value`.
use fuzz_helm.Base.{
  ℕ, ◌+◌, Bool, true, not, ◌||◌, ◌≡◌, Option, none, some, String, List, [], ◌∷◌, ◌++◌,
  if◌then◌else◌,
}
use fuzz_helm.Base.Int.{ℤ}
use fuzz_helm.Decimal.{Decimal}
use fuzz_helm.Core.Value.{Value, Fields}

-- The libraries under the journal: the test of two digests for equality, the formatting of a decimal,
-- `orjson.dumps` of the list [seq, ts_event_ns, ts_ingest_ns, kind, payload], and BLAKE2b over a digest
-- and bytes that follow it.
pub record Backend : Type 1 where
  pub Hash : Type 0
  pub Bytes : Type 0
  pub same : Hash → Hash → Bool
  pub same_refl : (a : Hash) → same a a ≡ true
  pub same_eq : (a b : Hash) → same a b ≡ true → a ≡ b
  pub dec_str : Decimal → String
  pub dumps : ℕ → ℤ → ℤ → String → Fields → Bytes
  pub blake2b : Hash → Bytes → Hash

-- `to_canonical`: a decimal becomes text, at every depth.
unfoldable mutual
  pub to_canonical : (Decimal → String) → Value → Value
  to_canonical f (Value.decimal d) = Value.text (f d)
  to_canonical f (Value.obj kvs) = Value.obj (canonical_fields f kvs)
  to_canonical f Value.null = Value.null
  to_canonical f (Value.bool b) = Value.bool b
  to_canonical f (Value.int n) = Value.int n
  to_canonical f (Value.text s) = Value.text s

  pub canonical_fields : (Decimal → String) → Fields → Fields
  canonical_fields f Fields.end = Fields.end
  canonical_fields f (Fields.field k v rest) =
      Fields.field k (to_canonical f v) (canonical_fields f rest)

module _ (b : Backend) where
  pub record JournalEntry : Type 0 where
    pub run_id : String
    pub seq : ℕ
    pub ts_event_ns : ℤ
    pub ts_ingest_ns : ℤ
    pub kind : String
    pub payload : Fields
    pub prev_hash : b.Hash
    pub hash : b.Hash

  unfoldable pub entry_hash : b.Hash → ℕ → ℤ → ℤ → String → Fields → b.Hash
  unfolding canonical_fields
  entry_hash prev seq event ingest kind payload =
      b.blake2b prev (b.dumps seq event ingest kind (canonical_fields b.dec_str payload))

  pub record EventJournal : Type 0 where
    pub run_id : String
    pub sink : Option (List JournalEntry)
    pub head : b.Hash
    pub next_seq : ℕ
    pub keep : Bool
    pub entries : List JournalEntry

  -- The entry that `append` makes.
  unfoldable pub next_entry : EventJournal → String → Fields → ℤ → ℤ → JournalEntry
  unfolding entry_hash
  next_entry j kind payload event ingest = record {
    run_id = j.run_id;
    seq = j.next_seq;
    ts_event_ns = event;
    ts_ingest_ns = ingest;
    kind = kind;
    payload = payload;
    prev_hash = j.head;
    hash = entry_hash j.head j.next_seq event ingest kind payload;
  }

  abbrev delivered : JournalEntry → Option (List JournalEntry) → Option (List JournalEntry)
  delivered e none = none
  delivered e (some es) = some (es ++ (e ∷ []))

  unfoldable pub append : EventJournal → String → Fields → ℤ → ℤ → EventJournal
  unfolding next_entry
  append j kind payload event ingest =
      let e = next_entry j kind payload event ingest in
      record j {
        head = e.hash;
        next_seq = j.next_seq + 1;
        entries = if j.keep then j.entries ++ (e ∷ []) else j.entries;
        sink = delivered e j.sink;
      }

  -- An entry does not follow `prev`, or does not carry its own hash.
  abbrev broken : b.Hash → JournalEntry → Bool
  broken prev e =
      not (b.same e.prev_hash prev)
      || not (b.same e.hash (entry_hash prev e.seq e.ts_event_ns e.ts_ingest_ns e.kind e.payload))

  unfoldable pub verify_chain : List JournalEntry → b.Hash → Option ℕ
  verify_chain [] prev = none
  verify_chain (e ∷ es) prev = if broken prev e then some e.seq else verify_chain es e.hash
