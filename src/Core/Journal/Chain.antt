-- ===== src/Core/Journal/Chain.antt =====
-- The journal's own entries form a chain, and a change of an entry is found at its place.
use fuzz_helm.Base.{
  ◌≡◌, ◌≢◌, ◌∙◌, ap, refl, sym, ◌↔◌, inl, inr, Bool-cases, true, none, some, String, List, [], ◌∷◌,
  ◌++◌,
}
use fuzz_helm.Base.Int.{ℤ}
use fuzz_helm.Core.Value.{Fields}
use fuzz_helm.Core.Journal.Defs.{
  Backend, JournalEntry, EventJournal, entry_hash, next_entry, append, verify_chain,
}

module _ (b : Backend) where
  -- The hash that an entry has to carry after `prev`.
  abbrev pub expected : b.Hash → JournalEntry b → b.Hash
  expected prev e = entry_hash b prev e.seq e.ts_event_ns e.ts_ingest_ns e.kind e.payload

  -- Every entry points to the one before it and carries its own hash.
  abbrev pub Chained : b.Hash → List (JournalEntry b) → Type 0
  Chained prev [] = Unit
  Chained prev (e ∷ es) = (e.prev_hash ≡ prev) × (e.hash ≡ expected prev e) × Chained e.hash es

  -- The hash after a list of entries.
  abbrev pub head_of : b.Hash → List (JournalEntry b) → b.Hash
  head_of prev [] = prev
  head_of prev (e ∷ es) = head_of e.hash es

  sound :
      (prev : b.Hash) (es : List (JournalEntry b)) → verify_chain b es prev ≡ none → Chained prev es
  unfolding verify_chain
  sound prev [] h = tt
  sound prev (e ∷ es) h = elim (Bool-cases (b.same e.prev_hash prev)) [
    | inr n ↦ cc
    | inl p ↦ elim (Bool-cases (b.same e.hash (expected prev e))) [
      | inr n ↦ cc
      | inl q ↦ (b.same_eq _ _ p, b.same_eq _ _ q, sound e.hash es (rw (p, q) at h))
    ]
  ]

  complete :
      (prev : b.Hash) (es : List (JournalEntry b)) → Chained prev es → verify_chain b es prev ≡ none
  unfolding verify_chain
  complete prev [] h = refl
  complete prev (e ∷ es) (p, q, h) =
      rw
        (
          ap (λ x. b.same x prev) p ∙ b.same_refl prev,
          ap (λ x. b.same x (expected prev e)) q ∙ b.same_refl (expected prev e),
        )
        (complete e.hash es h)

  -- `verify_chain` finds nothing exactly for the entries of which each points to the one before it, the
  -- first to the start, and carries its own hash.
  pub verify_chain-Chained :
      (prev : b.Hash) (es : List (JournalEntry b))
      → (verify_chain b es prev ≡ none) ↔ Chained prev es
  verify_chain-Chained prev es = (sound prev es, complete prev es)

  Chained-append :
      (prev : b.Hash) (es : List (JournalEntry b)) (e : JournalEntry b)
      → Chained prev es
      → e.prev_hash ≡ head_of prev es
      → e.hash ≡ expected (head_of prev es) e
      → Chained prev (es ++ (e ∷ [])) × (head_of prev (es ++ (e ∷ [])) ≡ e.hash)
  Chained-append prev [] e h p q = ((p, q, tt), refl)
  Chained-append prev (x ∷ es) e h p q =
      let (c, d) = Chained-append x.hash es e h.2 p q in ((h.0, h.1, c), d)

  -- One call of `append`.
  abbrev pub Call : Type 0
  Call = String × Fields × ℤ × ℤ

  abbrev pub append_all : EventJournal b → List Call → EventJournal b
  append_all j [] = j
  append_all j ((kind, payload, event, ingest) ∷ calls) =
      append_all (append b j kind payload event ingest) calls

  append_all-Chained :
      (genesis : b.Hash) (j : EventJournal b) (calls : List Call)
      → j.keep ≡ true
      → Chained genesis j.entries × (head_of genesis j.entries ≡ j.head)
      → Chained genesis (append_all j calls).entries
  unfolding append next_entry
  append_all-Chained genesis j [] k h = h.0
  append_all-Chained genesis j ((kind, payload, event, ingest) ∷ calls) k h =
      let e = next_entry b j kind payload event ingest in
      append_all-Chained genesis (append b j kind payload event ingest) calls k
        (rw k (Chained-append genesis j.entries e h.0 (sym h.1) (ap (λ p. expected p e) (sym h.1))))

  -- What a journal that keeps its entries has collected, after any calls of `append` on an empty journal,
  -- `verify_chain` accepts.
  pub append_all-verify :
      (j : EventJournal b) (calls : List Call)
      → j.keep ≡ true
      → j.entries ≡ []
      → verify_chain b (append_all j calls).entries j.head ≡ none
  append_all-verify j calls k e =
      complete j.head (append_all j calls).entries
        (append_all-Chained j.head j calls k (rw e (tt, refl)))

  find_tampered :
      (prev : b.Hash) (before after : List (JournalEntry b)) (e : JournalEntry b) (payload : Fields)
      → Chained prev (before ++ (e ∷ after))
      → expected (head_of prev before) (record e { payload = payload })
        ≢ expected (head_of prev before) e
      → verify_chain b (before ++ (record e { payload = payload } ∷ after)) prev ≡ some e.seq
  unfolding verify_chain
  find_tampered prev [] after e payload (p, q, c) n =
      elim (Bool-cases (b.same e.hash (expected prev (record e { payload = payload })))) [
        | inl s ↦ absurd (n (sym (b.same_eq _ _ s) ∙ q))
        | inr s ↦ rw (ap (λ x. b.same x prev) p ∙ b.same_refl prev, s) refl
      ]
  find_tampered prev (x ∷ before) after e payload (p, q, c) n =
      rw
        (
          ap (λ y. b.same y prev) p ∙ b.same_refl prev,
          ap (λ y. b.same y (expected prev x)) q ∙ b.same_refl (expected prev x),
        )
        (find_tampered x.hash before after e payload c n)

  -- If in an intact chain the payload of one entry is replaced by one that hashes to something else,
  -- `verify_chain` reports the sequence number of that entry.
  pub tampered-found :
      (prev : b.Hash) (before after : List (JournalEntry b)) (e : JournalEntry b) (payload : Fields)
      → verify_chain b (before ++ (e ∷ after)) prev ≡ none
      → expected (head_of prev before) (record e { payload = payload })
        ≢ expected (head_of prev before) e
      → verify_chain b (before ++ (record e { payload = payload } ∷ after)) prev ≡ some e.seq
  tampered-found prev before after e payload h n =
      find_tampered prev before after e payload (sound prev _ h) n
