-- ===== src/ProductionTools/Ledger.antt =====
-- idempotencyLedger.execute of internal/productiontools/production_tools.go, in two parts, as it holds
-- the lock only for the first: a call looks its key up and claims it if it is free, and the call that
-- has claimed it sets the result when its run is over. The JSON of the failures is left out.
pub mod Once
use blender_shot_preview.Prelude.{
  String, Bool, true, false, Option, none, some, List, [], ◌==◌, not, if◌then◌else◌, lookup, insert,
}

-- idempotencyEntry, with `done` closed where there is a result.
pub record Entry : Type 0 where
  pub fingerprint : String
  pub result : Option String

pub record Ledger : Type 0 where
  pub items : List (String × Entry)

-- What a call does next: run, refuse a key that was used with other arguments, or give the result of
-- the entry, once it is there.
pub data Answer : Type 0 where
  runs conflict waits : Answer
  gives : String → Answer

abbrev pub when_done : Option String → Answer
when_done none = waits
when_done (some result) = gives result

abbrev pub claim_found : String → String → Ledger → Option Entry → Answer × Ledger
claim_found key fingerprint l none = (
  runs,
  record { items = insert key (record { fingerprint = fingerprint; result = none }) l.items },
)
claim_found key fingerprint l (some entry) =
    (if not (entry.fingerprint == fingerprint) then conflict else when_done entry.result, l)

-- execute up to its run.
unfoldable pub claim : String → String → Ledger → Answer × Ledger
claim key fingerprint l = claim_found key fingerprint l (lookup key l.items)

abbrev pub finish_found : String → String → Ledger → Option Entry → Ledger
finish_found key result l none = l
finish_found key result l (some entry) = record {
  items = insert key (record entry { result = some result }) l.items;
}

-- execute after its run: the entry is the one that the call has claimed.
unfoldable pub finish : String → String → Ledger → Ledger
finish key result l = finish_found key result l (lookup key l.items)
