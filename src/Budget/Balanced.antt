-- ===== src/Budget/Balanced.antt =====
-- The accounts of a budget over whole workflows.
use commitment_workbench.Prelude.{
  ℕ, ◌≤◌, ◌<◌, ◌≡◌, refl, ap, ◌∙◌, Bool, true, false, Option, none, some, List, [], ◌∷◌, arith,
  length, if◌then◌else◌,
}
use commitment_workbench.Budget.State.{
  cancelled, disposed, deadline, Settlement, unsettled, fulfilled, rejected, Attempt, Budget,
}
use commitment_workbench.Budget.Calls.{Admission}
use commitment_workbench.Budget.Settle.{find_attempt, receive, provider_failed}
use commitment_workbench.Budget.Refusals.{close-Idle, complete-Idle}
use commitment_workbench.Budget.Admitted.{create_message-Admits}
use commitment_workbench.Budget.Admission.{Admits, turned_away, let_in}
use commitment_workbench.Budget.Accounts.{
  total, waiting, Accounts, Idle-Accounts, Reserves-Accounts,
}
use commitment_workbench.Budget.Settled.{
  IsWaiting, find-id, receive-Accounts, provider_failed-Accounts,
}
use commitment_workbench.Budget.Traces.{
  Event, call, respond, fail_provider, finish, cancel, dispose, timer, is_unsettled, when_waiting,
  step, run, Fits, step-Fits,
}

is_unsettled_lem : (e : Attempt) → is_unsettled e ≡ true → e.provider_settlement ≡ unsettled
is_unsettled_lem e h = go e.provider_settlement h
  where
    go :
        (p : Settlement)
        → (elim p as (λ _. Bool) [ unsettled ↦ true | _ ↦ false ]) ≡ true
        → p ≡ unsettled
    go unsettled q = refl
    go fulfilled q = cc q
    go rejected q = cc q

when_waiting-Accounts :
    (id : ℕ) (f : Attempt → Budget) (b : Budget)
    → ((e : Attempt) → IsWaiting b e → Accounts (f e))
    → Accounts b
    → Accounts (when_waiting id f b)
when_waiting-Accounts id f b h k = go (find_attempt id b.ledger) refl
  where
    pick :
        (e : Attempt)
        → find_attempt id b.ledger ≡ some e
        → (t : Bool) → is_unsettled e ≡ t
        → Accounts (if t then f e else b)
    pick e q true w = h e (record {
      found = ap (λ i. find_attempt i b.ledger) (find-id id b.ledger e q) ∙ q;
      waits = is_unsettled_lem e w;
    })
    pick e q false w = k

    go :
        (o : Option Attempt)
        → find_attempt id b.ledger ≡ o
        → Accounts (elim o [ none ↦ b | some e ↦ if is_unsettled e then f e else b ])
    go none q = k
    go (some e) q = pick e q (is_unsettled e) refl

step-Accounts :
    (e : Event) (b : Budget)
    → 0 < b.limits.max_output_tokens_per_call
    → Accounts b
    → Accounts (step e b)
unfolding step
step-Accounts (call role p clock) b cap k = go (create_message-Admits role p clock b cap)
  where
    go : {x : Admission × Budget} → Admits role b x → Accounts x.1
    go (turned_away q) = Idle-Accounts q k
    go (let_in bytes tokens q room r) = Reserves-Accounts r (Idle-Accounts q k)
step-Accounts (respond id r at) b cap k =
    when_waiting-Accounts id (λ e. receive e r at b) b (λ e w. receive-Accounts e r at b w k) k
step-Accounts (fail_provider id at) b cap k =
    when_waiting-Accounts id (λ e. provider_failed e at b) b
      (λ e w. provider_failed-Accounts e at b w k) k
step-Accounts (finish id at) b cap k = Idle-Accounts (complete-Idle id at b) k
step-Accounts cancel b cap k = Idle-Accounts (close-Idle cancelled b) k
step-Accounts dispose b cap k = Idle-Accounts (close-Idle disposed b) k
step-Accounts timer b cap k = Idle-Accounts (close-Idle deadline b) k

-- Whatever is called, answered, cancelled or completed, in any order, the counters go on to be the sums
-- over the attempts.
pub run-Accounts : (es : List Event) (b : Budget) → Fits b → Accounts b → Accounts (run es b)
unfolding run
run-Accounts [] b f k = k
run-Accounts (e ∷ es) b f k =
    run-Accounts es (step e b) (step-Fits e b f) (step-Accounts e b f.cap_positive k)

-- What the limits bound, told of the attempts themselves.
pub record Bounded (b : Budget) : Type 0 where
  pub attempts_few : length b.ledger ≤ b.limits.max_attempts
  pub waiting_few : total waiting b.ledger ≤ b.limits.max_concurrent
  pub bytes_few : total (λ c. c.bytes) b.ledger ≤ b.limits.max_total_input_bytes

pub Fits-Bounded : (b : Budget) → Fits b → Accounts b → Bounded b
Fits-Bounded b f k = record {
  attempts_few = f.attempts_fit;
  waiting_few = omega (arith, f.active_fits, k.active_eq);
  bytes_few = omega (arith, f.bytes_fit, k.bytes_eq);
}
