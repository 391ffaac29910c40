-- ===== src/Ingest/Dedup/Kept.antt =====
-- What a deduplicator holds after an event was offered.
use fuzz_helm.Base.{◌+◌, ◌≡◌, Bool, arith}
use fuzz_helm.Ingest.Dedup.Defs.{MarketEvent, Deduplicator, offer}

-- Every offer is counted once.
pub offer-counts :
    (later : MarketEvent → MarketEvent → Bool) (d : Deduplicator) (e : MarketEvent)
    → (offer later d e).1.new_count
        + (offer later d e).1.duplicate_count
        + (offer later d e).1.replaced_count
      ≡ d.new_count + d.duplicate_count + d.replaced_count + 1
unfolding offer
offer-counts later d e = ground arith
