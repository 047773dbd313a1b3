-- ===== src/Governance/Examples.antt =====
-- The evaluators' theorems at concrete entries and amounts.
use commitment_workbench.Prelude.{
  ◌+◌, ◌≤◌, ◌<◌, ◌≡◌, refl, ◌↔◌, ◌⊎◌, some, none, List, [], ◌∷◌, arith, Text, codes, text_eq, here,
  there,
}
use commitment_workbench.Prelude.Member.{Member}
use commitment_workbench.Prelude.Int.{pos}
use commitment_workbench.Governance.Policy.{
  PolicyEntry, PolicyAction, Source, of_entry, allow, allows, denies, finite, non_finite, before,
  evaluate_policy,
}
use commitment_workbench.Governance.Policy.Winner.{
  IsSound, Authorises, IsExact, SameMembers, evaluate_policy-allow_iff,
  evaluate_policy-allow-IsExact, evaluate_policy_order_free,
}
use commitment_workbench.Governance.Spend.{
  evaluate_spend, within, exceeds, unavailable, SpendCheckInput,
}
use commitment_workbench.Governance.Spend.Exact.{
  Cents, IsSafe, input_of, session_breach, month_breach, evaluate_spend_exact,
  evaluate_spend-unavailable_iff,
}

abbrev lower : Text → Text
lower s = s

abbrev floor : PolicyEntry
floor = record {
  id = codes "default-deny";
  source = Source.standing;
  session_id = none;
  service = codes "*";
  verb = codes "*";
  noun = codes "*";
  decision = denies;
  priority = finite (pos 0);
  created_at = codes "t0";
  expires_at = none;
}

abbrev grant : PolicyEntry
grant = record {
  id = codes "g1";
  source = Source.session;
  session_id = some (codes "s1");
  service = codes "mail";
  verb = codes "send";
  noun = codes "bob";
  decision = allows;
  priority = finite (pos 10);
  created_at = codes "t1";
  expires_at = none;
}

abbrev action : PolicyAction (Unit {0})
action = record {
  agent = codes "main";
  service = codes "mail";
  verb = codes "send";
  noun = codes "bob";
  tool_name = codes "gmail_send";
  params = tt;
}

abbrev entries : List PolicyEntry
entries = floor ∷ grant ∷ []

granted : (evaluate_policy lower entries action).decision ≡ allow
unfolding evaluate_policy before text_eq
granted = refl

evaluate_policy-allow_iff_example :
    ((evaluate_policy lower entries action).decision ≡ allow)
    ↔ (IsSound lower action entries × ((e : PolicyEntry) × Authorises lower action entries e))
evaluate_policy-allow_iff_example = evaluate_policy-allow_iff lower action entries

evaluate_policy-allow-IsExact_example :
    (e : PolicyEntry) × Authorises lower action entries e
    × IsExact lower action e
    × (evaluate_policy lower entries action
        ≡ record { decision = allow; source = of_entry e.source; entry_id = some e.id })
evaluate_policy-allow-IsExact_example = evaluate_policy-allow-IsExact lower action entries granted

abbrev corrupt : List PolicyEntry
corrupt = grant ∷ record floor { priority = non_finite } ∷ []

swap_members : (a b : PolicyEntry) → SameMembers lower action (a ∷ b ∷ []) (b ∷ a ∷ [])
swap_members a b e = (flip a b, flip b a)
  where
    flip : (x y : PolicyEntry) → Member e (x ∷ y ∷ []) → Member e (y ∷ x ∷ [])
    flip x y (here h) = there (here h)
    flip x y (there (here h)) = here h
    flip x y (there (there h)) = elim h [ ]

evaluate_policy_order_free_example :
    (evaluate_policy lower entries action).decision
    ≡ (evaluate_policy lower (grant ∷ floor ∷ []) action).decision
evaluate_policy_order_free_example =
    evaluate_policy_order_free lower action entries (grant ∷ floor ∷ []) (swap_members floor grant)

abbrev order_20 : Cents
order_20 = record {
  amount = 900;
  session_limit = 2000;
  month_limit = 5000;
  session_spent = 1500;
  month_spent = 1500;
}

order_20-IsSafe : IsSafe order_20
order_20-IsSafe = ground arith

evaluate_spend_exact_example :
    ((order_20.session_spent + order_20.amount ≤ order_20.session_limit)
      × (order_20.month_spent + order_20.amount ≤ order_20.month_limit)
      × (evaluate_spend (input_of order_20) ≡ within))
    ⊎ ((order_20.session_limit < order_20.session_spent + order_20.amount)
        × (order_20.month_spent + order_20.amount ≤ order_20.month_limit)
        × (evaluate_spend (input_of order_20) ≡ exceeds (session_breach order_20 ∷ [])))
    ⊎ ((order_20.session_spent + order_20.amount ≤ order_20.session_limit)
        × (order_20.month_limit < order_20.month_spent + order_20.amount)
        × (evaluate_spend (input_of order_20) ≡ exceeds (month_breach order_20 ∷ [])))
    ⊎ ((order_20.session_limit < order_20.session_spent + order_20.amount)
        × (order_20.month_limit < order_20.month_spent + order_20.amount)
        × (evaluate_spend (input_of order_20)
            ≡ exceeds (session_breach order_20 ∷ month_breach order_20 ∷ [])))
evaluate_spend_exact_example = evaluate_spend_exact order_20 order_20-IsSafe

abbrev unread : SpendCheckInput
unread = record (input_of order_20) { totals = none }

evaluate_spend-unavailable_iff_example :
    (evaluate_spend unread ≡ unavailable) ↔ (¬ ((c : Cents) × IsSafe c × (input_of c ≡ unread)))
evaluate_spend-unavailable_iff_example = evaluate_spend-unavailable_iff unread
