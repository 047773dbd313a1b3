-- ===== src/Budget/Bounds.antt =====
-- The steps of a budget that admit no attempt.
use commitment_workbench.Prelude.{ℕ, ◌≤◌, ◌≡◌, refl, ◌∙◌, some, arith, length}
use commitment_workbench.Budget.State.{Code, Usage, Attempt, Budget, read_usage}
use commitment_workbench.Budget.Settle.{Response, settle, receive, provider_failed}
use commitment_workbench.Budget.Idle.{Idle, length-map, same_length_lem}
use commitment_workbench.Budget.Refusals.{receive-settle, provider_failed-reject}

-- A change that admits no attempt and reopens nothing.
pub record Quiet (b b' : Budget) : Type 0 where
  pub same_limits : b'.limits ≡ b.limits
  pub same_length : length b'.ledger ≡ length b.ledger
  pub same_peak : b'.peak ≡ b.peak
  pub same_bytes : b'.request_bytes ≡ b.request_bytes
  pub less_active : b'.active ≤ b.active
  pub stays_closed : (c : Code) → b.closed ≡ some c → b'.closed ≡ some c

pub Quiet-refl : (b : Budget) → Quiet b b
Quiet-refl b = record {
  same_limits = refl;
  same_length = refl;
  same_peak = refl;
  same_bytes = refl;
  less_active = omega arith;
  stays_closed = λ c h. h;
}

pub Quiet-trans : {a b c : Budget} → Quiet a b → Quiet b c → Quiet a c
Quiet-trans p q = record {
  same_limits = q.same_limits ∙ p.same_limits;
  same_length = q.same_length ∙ p.same_length;
  same_peak = q.same_peak ∙ p.same_peak;
  same_bytes = q.same_bytes ∙ p.same_bytes;
  less_active = omega (arith, p.less_active, q.less_active);
  stays_closed = λ c h. q.stays_closed c (p.stays_closed c h);
}

pub Idle-Quiet : {a b : Budget} → Idle a b → Quiet a b
Idle-Quiet {a} {b} p = record {
  same_limits = p.same_limits;
  same_length = same_length_lem b.ledger a.ledger p.same_cores;
  same_peak = p.same_peak;
  same_bytes = p.same_bytes;
  less_active = omega (arith, p.same_active);
  stays_closed = p.stays_closed;
}

pub settle-Quiet : (e : Attempt) (u : Usage) (at : ℕ) (b : Budget) → Quiet b (settle e u at b)
unfolding settle
settle-Quiet e u at b = record {
  same_limits = refl;
  same_length = length-map _ b.ledger;
  same_peak = refl;
  same_bytes = refl;
  less_active = omega arith;
  stays_closed = λ c h. h;
}

pub receive-Quiet : (e : Attempt) (r : Response) (at : ℕ) (b : Budget) → Quiet b (receive e r at b)
receive-Quiet e r at b =
    Quiet-trans (settle-Quiet e (read_usage r.usage) at b) (Idle-Quiet (receive-settle e r at b))

pub provider_failed-Quiet : (e : Attempt) (at : ℕ) (b : Budget) → Quiet b (provider_failed e at b)
provider_failed-Quiet e at b =
    Quiet-trans
      (record {
        same_limits = refl;
        same_length = length-map _ b.ledger;
        same_peak = refl;
        same_bytes = refl;
        less_active = omega arith;
        stays_closed = λ c h. h;
      })
      (Idle-Quiet (provider_failed-reject e at b))
