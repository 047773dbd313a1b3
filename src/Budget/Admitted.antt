-- ===== src/Budget/Admitted.antt =====
-- When a budget lets a call through, and what it reserves for it.
use commitment_workbench.Prelude.{
  ℕ, suc, ◌≤◌, ◌<◌, ◌≡◌, refl, sym, subst, Bool, true, false, not, ◌&&◌, Option, none, some, map,
  arith, length, leb, ◌==◌, min, if◌then◌else◌, text_eq,
}
use commitment_workbench.Prelude.Int.{pos, negsuc}
use commitment_workbench.Governance.Spend.{Number, whole, other}
use commitment_workbench.Budget.Data.{
  Copy, counted, exceeded, invalid, Fields, object, bounded_copy, valid_request,
}
use commitment_workbench.Budget.Counted.{bounded_copy-le}
use commitment_workbench.Budget.State.{
  Role, Code, deadline, cancelled, Budget, close, is_closed, check_open, abort_run, invalid_request,
}
use commitment_workbench.Budget.Calls.{
  CreateParams, Clock, Admission, refused_with, dispatched, available, request_limit, reserve,
  admit, admit_copy, sized, limited, guarded, create_message, positive_integer, request_of,
}
use commitment_workbench.Budget.Idle.{Idle, Idle-refl, Idle-trans}
use commitment_workbench.Budget.Refusals.{close-Idle, check_open-Idle}
use commitment_workbench.Budget.Admission.{Room, reserve-Reserves, Admits, turned_away, let_in}

closes : (code : Code) (b : Budget) → ¬ ((close code b).closed ≡ none)
unfolding close
closes code b = go b.closed refl
  where
    go :
        (o : Option Code)
        → b.closed ≡ o
        → ¬ (
            (elim o as (λ x. Budget) [
              | none ↦ record b { closed = some code; ledger = map (abort_run code) b.ledger }
              | some c ↦ b
            ]).closed
            ≡ none)
    go none e h = cc
    go (some c) e h = cc

-- A budget that is open after the test of the deadline was not changed by it.
check_open-same : (at : ℕ) (b : Budget) → (check_open at b).closed ≡ none → check_open at b ≡ b
unfolding check_open
check_open-same at b = go (not (is_closed b) && leb b.limits.wall_time_ms at)
  where
    go :
        (t : Bool)
        → (if t then close deadline b else b).closed ≡ none
        → (if t then close deadline b else b) ≡ b
    go true h = absurd (closes deadline b h)
    go false h = refl

either-Admits :
    (role : Role) (b : Budget) (t : Bool) (x y : Admission × Budget)
    → Admits role b x
    → (t ≡ false → Admits role b y)
    → Admits role b (if t then x else y)
either-Admits role b true x y p q = p
either-Admits role b false x y p q = q refl

admit-Admits :
    (role : Role) (bytes tokens : ℕ) (clock : Clock) (b : Budget)
    → Room b bytes tokens
    → Admits role b (admit role bytes tokens clock b)
unfolding admit
admit-Admits role bytes tokens clock b room = go (check_open clock.at_copy b).closed refl
  where
    go :
        (o : Option Code)
        → (check_open clock.at_copy b).closed ≡ o
        → Admits role b (elim o as (λ x. Admission × Budget) [
          | some c ↦ (refused_with c, check_open clock.at_copy b)
          | none ↦ (
            dispatched (suc (length (check_open clock.at_copy b).ledger)),
            reserve role bytes tokens clock.at_start (check_open clock.at_copy b),
          )
        ])
    go (some c) e = turned_away (check_open-Idle clock.at_copy b)
    go none e =
        let_in bytes tokens (check_open-Idle clock.at_copy b)
          (subst (λ x. Room x bytes tokens) (sym (check_open-same clock.at_copy b e)) room)
          (reserve-Reserves role bytes tokens clock.at_start (check_open clock.at_copy b))

admit_copy-Admits :
    (role : Role) (request : Fields) (m : Copy) (tokens : ℕ) (clock : Clock) (b : Budget)
    → ((n : ℕ) → m ≡ counted n → Room b n tokens)
    → Admits role b (admit_copy role request m tokens clock b)
unfolding admit_copy
admit_copy-Admits role request (exceeded n) tokens clock b room = turned_away (Idle-refl b)
admit_copy-Admits role request invalid tokens clock b room = turned_away (Idle-refl b)
admit_copy-Admits role request (counted n) tokens clock b room =
    either-Admits role b (not (valid_request request)) _ _ (turned_away (Idle-refl b))
      (λ e. admit-Admits role n tokens clock b (room n refl))

positive : (v : Number) (n : ℕ) → positive_integer v ≡ some n → 0 < n
positive (whole (pos m)) n h = ground arith
positive (whole (negsuc m)) n h = cc
positive other n h = cc

sized-Admits :
    (role : Role) (p : CreateParams) (wanted : ℕ) (clock : Clock) (b : Budget)
    → 0 < wanted
    → ((n tokens : ℕ)
        → n ≤ request_limit b
        → tokens ≤ available b
        → tokens ≤ b.limits.max_output_tokens_per_call
        → (0 < available b → 0 < b.limits.max_output_tokens_per_call → 0 < tokens)
        → Room b n tokens)
    → Admits role b (sized role p wanted clock b)
unfolding sized
sized-Admits role p wanted clock b w room =
    let tokens : ℕ = min wanted (min b.limits.max_output_tokens_per_call (available b)) in
    let request : Fields = request_of b.model tokens p in
    admit_copy-Admits role request (bounded_copy (request_limit b) (object request)) tokens clock b
      (λ n h.
        room n tokens (bounded_copy-le (request_limit b) n (object request) h) (omega arith)
          (omega arith) (λ a c. omega (arith, a, c, w)))

limited-Admits :
    (role : Role) (p : CreateParams) (wanted : ℕ) (clock : Clock) (b : Budget)
    → b.closed ≡ none
    → 0 < b.limits.max_output_tokens_per_call
    → 0 < wanted
    → Admits role b (limited role p wanted clock b)
unfolding limited
limited-Admits role p wanted clock b free cap w =
    either-Admits role b (leb b.limits.max_attempts (length b.ledger)) _ _ stay (λ h1.
      either-Admits role b (leb b.limits.max_concurrent b.active) _ _ stay (λ h2.
        either-Admits role b (leb b.limits.max_observed_input_tokens b.observed_input) _ _ stay
          (λ h3. either-Admits role b (available b == 0) _ _ stay (λ h4.
            sized-Admits role p wanted clock b w (λ n tokens fit a c pos. record {
              still_open = free;
              attempt_left = ground arith;
              slot_free = ground arith;
              input_left = ground arith;
              bytes_fit = fit;
              tokens_fit = a;
              tokens_capped = c;
              tokens_positive = pos (ground arith) cap;
            })))))
  where
    stay : {c : Code} → Admits role b (refused_with c, b)
    stay = turned_away (Idle-refl b)

guarded-Admits :
    (role : Role) (p : CreateParams) (clock : Clock) (b : Budget)
    → b.closed ≡ none
    → 0 < b.limits.max_output_tokens_per_call
    → Admits role b (guarded role p clock b)
unfolding guarded
guarded-Admits role p clock b free cap =
    either-Admits role b (not (text_eq p.model b.model)) _ _ (turned_away (Idle-refl b))
      (λ same. go (positive_integer p.max_tokens) refl)
  where
    go :
        (o : Option ℕ)
        → positive_integer p.max_tokens ≡ o
        → Admits role b (elim o as (λ x. Admission × Budget) [
          | none ↦ (refused_with invalid_request, b)
          | some wanted ↦ limited role p wanted clock b
        ])
    go none e = turned_away (Idle-refl b)
    go (some wanted) e =
        limited-Admits role p wanted clock b free cap (positive p.max_tokens wanted e)

Admits-after :
    (role : Role) (a b : Budget) (x : Admission × Budget)
    → Idle a b
    → Admits role b x
    → Admits role a x
Admits-after role a b x q (turned_away p) = turned_away (Idle-trans q p)
Admits-after role a b x q (let_in bytes tokens p room reserved) =
    let_in bytes tokens (Idle-trans q p) room reserved

cancelled-Idle : (t : Bool) (b : Budget) → Idle b (if t then close cancelled b else b)
cancelled-Idle true b = close-Idle cancelled b
cancelled-Idle false b = Idle-refl b

pub create_message-Admits :
    (role : Role) (p : CreateParams) (clock : Clock) (b : Budget)
    → 0 < b.limits.max_output_tokens_per_call
    → Admits role b (create_message role p clock b)
unfolding create_message
create_message-Admits role p clock b cap = Admits-after role b late _ q (go late.closed refl)
  where
    opened : Budget
    opened = check_open clock.at_call b

    late : Budget
    late = if not (is_closed opened) && p.aborted then close cancelled opened else opened

    q : Idle b late
    q =
        Idle-trans (check_open-Idle clock.at_call b)
          (cancelled-Idle (not (is_closed opened) && p.aborted) opened)

    go :
        (o : Option Code)
        → late.closed ≡ o
        → Admits role late (elim o as (λ x. Admission × Budget) [
          | some c ↦ (refused_with c, late)
          | none ↦ guarded role p clock late
        ])
    go (some c) e = turned_away (Idle-refl late)
    go none e = guarded-Admits role p clock late e (rw q.same_limits cap)
