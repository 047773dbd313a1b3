-- ===== src/Audit/Examples.antt =====
-- The audit theorems at a short log, with the identity in place of the digest.
use commitment_workbench.Prelude.{
  ◌+◌, ◌≡◌, refl, ◌≢◌, ◌↔◌, inl, inr, true, some, none, [], ◌∷◌, ◌++◌, arith, Text, codes, text_eq,
  text_ne, length, filter,
}
use commitment_workbench.Audit.Hash.{
  EntryHashFields, decimal, field_texts, hash_input, compute_entry_hash, genesis_sentinel,
}
use commitment_workbench.Audit.Hash.Framing.{hash_input_injective}
use commitment_workbench.Audit.Chain.{ChainEntry, verify_chain_range}
use commitment_workbench.Audit.Chain.Links.{IsChain, IsSeamedTo, verify_chain_range-clean_iff}
use commitment_workbench.Audit.Chain.Pages.{
  IsSecondGenesis, verify_pages_sound, verify_pages_complete, second_genesis_unreported,
}
use commitment_workbench.Audit.Chain.Tamper.{texts_of, newest_hash_determines}
use commitment_workbench.Audit.Closure.{check_decision_closure, owes_closer}
use commitment_workbench.Audit.Closure.Owed.{naming}
use commitment_workbench.Audit.Closure.Findings.{
  reports, conflict_at, open_at, unchecked_at, check_decision_closure-reports,
}
use commitment_workbench.Audit.Closure.Pages.{check_decision_closure-append}

abbrev digest : Text → Text
digest s = s

abbrev fields_0 : EntryHashFields
fields_0 = record {
  epoch_id = codes "e1";
  sequence_num = 0;
  prev_hash = genesis_sentinel;
  id = codes "r0";
  timestamp = codes "t0";
  user_id = codes "u";
  agent_id = codes "main";
  session_id = codes "s1";
  origin = codes "human";
  service = codes "mail";
  verb = codes "send";
  noun = codes "bob";
  tool_name = codes "gmail_send";
  parameters_metadata = codes "";
  decision = codes "pending";
  outcome = codes "pending";
  error_message = none;
  decision_entry_id = none;
  latency_ms = record { text = codes "0" };
  cost_usd = none;
}

-- A row with the digest of its fields.
abbrev seal : EntryHashFields → ChainEntry
seal f = record { fields = f; hash = compute_entry_hash digest f; epoch_prev_hash = none }

abbrev row_0 : ChainEntry
row_0 = seal fields_0

abbrev row_1 : ChainEntry
row_1 = seal (record fields_0 {
  sequence_num = 1;
  prev_hash = row_0.hash;
  id = codes "r1";
  decision = codes "allow";
  outcome = codes "success";
  decision_entry_id = some (codes "r0");
})

-- A second genesis of the same epoch.
abbrev rogue : ChainEntry
rogue = seal (record fields_0 { id = codes "r9"; noun = codes "eve" })

hash_input_injective_example : codes "a" ∷ codes "b" ∷ [] ≡ codes "a" ∷ codes "b" ∷ []
hash_input_injective_example =
    hash_input_injective (codes "a" ∷ codes "b" ∷ []) (codes "a" ∷ codes "b" ∷ []) refl refl

chain : IsChain digest none (row_0 ∷ row_1 ∷ [])
chain = (refl, inr refl, tt, (refl, inl (λ e. absurd (omega arith)), inl (refl, inr refl), tt))

clean : (verify_chain_range digest (row_0 ∷ row_1 ∷ []) none).breaks ≡ []
clean = (verify_chain_range-clean_iff digest row_0 (row_1 ∷ []) none).1 (chain, tt)

verify_chain_range-clean_iff_example :
    ((verify_chain_range digest (row_0 ∷ row_1 ∷ []) none).breaks ≡ [])
    ↔ (IsChain digest none (row_0 ∷ row_1 ∷ []) × IsSeamedTo row_1 none)
verify_chain_range-clean_iff_example = verify_chain_range-clean_iff digest row_0 (row_1 ∷ []) none

fresh : ¬ IsSecondGenesis row_0 row_1
fresh (z, e) = absurd (omega arith)

pages :
    ((verify_chain_range digest (row_0 ∷ []) (some row_1)).breaks ≡ [])
    × ((verify_chain_range digest (row_1 ∷ []) none).breaks ≡ [])
pages = verify_pages_complete digest row_0 row_1 [] [] none fresh clean

verify_pages_sound_example : (verify_chain_range digest (row_0 ∷ row_1 ∷ []) none).breaks ≡ []
verify_pages_sound_example = verify_pages_sound digest row_0 row_1 [] [] none pages.0 pages.1

not_sentinel : row_0.hash ≢ genesis_sentinel
unfolding text_eq compute_entry_hash hash_input field_texts decimal mathlib.Core.List.flatten
not_sentinel = text_ne row_0.hash genesis_sentinel refl

alone : (verify_chain_range digest (row_0 ∷ []) none).breaks ≡ []
alone = (verify_chain_range-clean_iff digest row_0 [] none).1 ((refl, inr refl, tt, tt), tt)

second_genesis_unreported_example :
    ((verify_chain_range digest (row_0 ∷ rogue ∷ []) none).breaks ≡ [])
    × ((verify_chain_range digest (row_0 ∷ []) (some rogue)).breaks ≢ [])
second_genesis_unreported_example =
    second_genesis_unreported digest row_0 rogue [] alone (refl, refl) refl refl not_sentinel

newest_hash_determines_example : texts_of (row_0 ∷ row_1 ∷ []) ≡ texts_of (row_0 ∷ row_1 ∷ [])
newest_hash_determines_example =
    newest_hash_determines digest (λ s t e. e) row_0 row_0 (row_1 ∷ []) (row_1 ∷ []) clean clean
      (refl, (λ e. absurd (omega arith)), tt) (refl, (λ e. absurd (omega arith)), tt) refl refl

check_decision_closure-reports_example :
    let v = check_decision_closure (row_0 ∷ row_1 ∷ []) [] true in
    let held = λ (k : Text). naming k [] in
    (v.decisions_checked ≡ length (filter owes_closer (row_0 ∷ row_1 ∷ [])))
    × (v.conflicted ≡ reports (conflict_at true) held (row_0 ∷ row_1 ∷ []))
    × (v.unresolved ≡ reports (open_at true) held (row_0 ∷ row_1 ∷ []))
    × (v.unchecked ≡ reports (unchecked_at true) held (row_0 ∷ row_1 ∷ []))
unfolding text_eq
check_decision_closure-reports_example =
    check_decision_closure-reports (row_0 ∷ row_1 ∷ []) [] true
      ((text_ne (codes "r1") (codes "r0") refl, tt), (tt, tt))

check_decision_closure-append_example :
    let second = check_decision_closure (row_1 ∷ []) [] true in
    let first = check_decision_closure (row_0 ∷ []) second.carry true in
    check_decision_closure (row_0 ∷ row_1 ∷ []) [] true ≡ record {
      decisions_checked = second.decisions_checked + first.decisions_checked;
      conflicted = first.conflicted ++ second.conflicted;
      unresolved = first.unresolved ++ second.unresolved;
      unchecked = first.unchecked ++ second.unchecked;
      carry = first.carry;
    }
check_decision_closure-append_example =
    check_decision_closure-append (row_0 ∷ []) (row_1 ∷ []) [] true
