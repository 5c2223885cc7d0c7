-- ===== src/ProductionTools/Ledger/Once.antt =====
-- A key is run once.
use blender_shot_preview.Prelude.{
  String, Bool, true, false, Option, none, some, ◌≡◌, ◌≢◌, refl, sym, ◌∙◌, ap, inl, inr, ◌==◌, not,
  if◌then◌else◌, lookup, lookup-insert, Bool-cases, ==-eq, ==_self,
}
use mathlib.Core.Option.{some-injective}
use blender_shot_preview.ProductionTools.Ledger.{
  Entry, Ledger, runs, conflict, when_done, claim_found, claim, finish_found, finish,
}

-- What other calls do to a ledger: they claim keys and finish their runs.
pub data Use : Ledger → Ledger → Type 0 where
  claims : {l : Ledger} (key fingerprint : String) → Use l (claim key fingerprint l).1
  finishes : {l : Ledger} (key result : String) → Use l (finish key result l)

pub data Uses (l : Ledger) : Ledger → Type 0 where
  unused : Uses l l
  used : {m n : Ledger} → Uses l m → Use m n → Uses l n

-- The key has an entry with the fingerprint.
abbrev IsClaimed : String → String → Ledger → Type 0
IsClaimed key fingerprint l =
    (entry : Entry) × (lookup key l.items ≡ some entry) × (entry.fingerprint ≡ fingerprint)

claim_found-IsClaimed :
    (other fp key fingerprint : String) (l : Ledger) (o : Option Entry)
    → lookup other l.items ≡ o
    → IsClaimed key fingerprint l
    → IsClaimed key fingerprint (claim_found other fp l o).1
claim_found-IsClaimed other fp key fingerprint l (some e) h c = c
claim_found-IsClaimed other fp key fingerprint l none h (entry, found, same) =
    elim (Bool-cases (other == key)) [
      | inl hit ↦ absurd (
          let clash : none ≡ some entry =
            sym h ∙ ap (λ k. lookup k l.items) (==-eq other key hit) ∙ found in
          cc)
      | inr miss ↦ (entry, lookup-insert other key _ l.items ∙ rw miss found, same)
    ]

finish_found-IsClaimed :
    (other result key fingerprint : String) (l : Ledger) (o : Option Entry)
    → lookup other l.items ≡ o
    → IsClaimed key fingerprint l
    → IsClaimed key fingerprint (finish_found other result l o)
finish_found-IsClaimed other result key fingerprint l none h c = c
finish_found-IsClaimed other result key fingerprint l (some e) h (entry, found, same) =
    elim (Bool-cases (other == key)) [
      | inl hit ↦
          let here : some e ≡ some entry =
            sym h ∙ ap (λ k. lookup k l.items) (==-eq other key hit) ∙ found in
          (
            record e { result = some result },
            lookup-insert other key _ l.items ∙ rw hit refl,
            ap (λ (x : Entry). x.fingerprint) (some-injective _ _ here) ∙ same,
          )
      | inr miss ↦ (entry, lookup-insert other key _ l.items ∙ rw miss found, same)
    ]

Uses-IsClaimed :
    {l m : Ledger} (key fingerprint : String)
    → IsClaimed key fingerprint l
    → Uses l m
    → IsClaimed key fingerprint m
unfolding claim finish
Uses-IsClaimed key fingerprint c unused = c
Uses-IsClaimed key fingerprint c (used {m} uses (claims other fp)) =
    claim_found-IsClaimed other fp key fingerprint m (lookup other m.items) refl
      (Uses-IsClaimed key fingerprint c uses)
Uses-IsClaimed key fingerprint c (used {m} uses (finishes other result)) =
    finish_found-IsClaimed other result key fingerprint m (lookup other m.items) refl
      (Uses-IsClaimed key fingerprint c uses)

ran-IsClaimed :
    (key fingerprint : String) (l : Ledger) (o : Option Entry)
    → (claim_found key fingerprint l o).0 ≡ runs
    → IsClaimed key fingerprint (claim_found key fingerprint l o).1
ran-IsClaimed key fingerprint l none e = (
  record { fingerprint = fingerprint; result = none },
  lookup-insert key key _ l.items ∙ rw (==_self key) refl,
  refl,
)
ran-IsClaimed key fingerprint l (some entry) e =
    absurd (never (not (entry.fingerprint == fingerprint)) entry.result e)
  where
    never : (b : Bool) (r : Option String) → (if b then conflict else when_done r) ≡ runs → ⊥
    never true r e = cc
    never false none e = cc
    never false (some s) e = cc

-- Once a call has been told to run under a key, no later call under that key is told to, whatever
-- calls claim keys and finish runs in between, and with whatever results; and a later call with
-- another fingerprint is refused.
pub claim_once :
    (key fingerprint again : String) (l : Ledger) {m : Ledger}
    → (claim key fingerprint l).0 ≡ runs
    → Uses (claim key fingerprint l).1 m
    → ((claim key again m).0 ≢ runs)
      × ((fingerprint == again) ≡ false → (claim key again m).0 ≡ conflict)
unfolding claim
claim_once key fingerprint again l {m} ran uses =
    let (entry, found, same) =
      Uses-IsClaimed key fingerprint (ran-IsClaimed key fingerprint l (lookup key l.items) ran)
        uses in
    rw (found)
      (later (not (entry.fingerprint == again)) entry.result, λ differ. rw (same, differ) refl)
  where
    later : (b : Bool) (r : Option String) → (if b then conflict else when_done r) ≢ runs
    later true r e = cc
    later false none e = cc
    later false (some s) e = cc
