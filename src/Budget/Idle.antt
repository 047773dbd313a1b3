-- ===== src/Budget/Idle.antt =====
-- The steps of a budget that change no account of it: the relation, and the marks of single attempts.
use commitment_workbench.Prelude.{
  ℕ, suc, ◌==◌, ◌≡◌, refl, sym, ap, ap₂, ◌∙◌, inl, inr, some, List, [], ◌∷◌, map, length,
  if◌then◌else◌, Bool-cases,
}
use commitment_workbench.Budget.State.{
  Code, succeeded, pending, refused, Outcome, Settlement, unsettled, fulfilled, rejected, unknown,
  Usage, Attempt, Budget, abort_run,
}
use commitment_workbench.Budget.Settle.{update_attempt, mark_refused}

-- What the accounts read of an attempt: its number, its settlement, its sizes and its usage.
pub record Core : Type 0 where
  pub id : ℕ
  pub settlement : Settlement
  pub bytes : ℕ
  pub tokens : ℕ
  pub usage : Usage

abbrev pub core : Attempt → Core
core e = record {
  id = e.id;
  settlement = e.provider_settlement;
  bytes = e.request_input_bytes;
  tokens = e.requested_output_tokens;
  usage = e.usage;
}

abbrev pub cores : List Attempt → List Core
cores = map core

-- A change that reserves nothing and settles nothing: all counters stay, no attempt comes or goes, and
-- of each only the marks of its end change. It reopens nothing.
pub record Idle (b b' : Budget) : Type 0 where
  pub same_limits : b'.limits ≡ b.limits
  pub same_cores : cores b'.ledger ≡ cores b.ledger
  pub same_active : b'.active ≡ b.active
  pub same_peak : b'.peak ≡ b.peak
  pub same_bytes : b'.request_bytes ≡ b.request_bytes
  pub same_requested : b'.requested_output ≡ b.requested_output
  pub same_reserved : b'.reserved_output ≡ b.reserved_output
  pub same_input : b'.observed_input ≡ b.observed_input
  pub same_output : b'.observed_output ≡ b.observed_output
  pub stays_closed : (c : Code) → b.closed ≡ some c → b'.closed ≡ some c

pub Idle-refl : (b : Budget) → Idle b b
Idle-refl b = record {
  same_limits = refl;
  same_cores = refl;
  same_active = refl;
  same_peak = refl;
  same_bytes = refl;
  same_requested = refl;
  same_reserved = refl;
  same_input = refl;
  same_output = refl;
  stays_closed = λ c h. h;
}

pub Idle-trans : {a b c : Budget} → Idle a b → Idle b c → Idle a c
Idle-trans p q = record {
  same_limits = q.same_limits ∙ p.same_limits;
  same_cores = q.same_cores ∙ p.same_cores;
  same_active = q.same_active ∙ p.same_active;
  same_peak = q.same_peak ∙ p.same_peak;
  same_bytes = q.same_bytes ∙ p.same_bytes;
  same_requested = q.same_requested ∙ p.same_requested;
  same_reserved = q.same_reserved ∙ p.same_reserved;
  same_input = q.same_input ∙ p.same_input;
  same_output = q.same_output ∙ p.same_output;
  stays_closed = λ c h. q.stays_closed c (p.stays_closed c h);
}

pub length-map : {A B : Type 0} (f : A → B) (xs : List A) → length (map f xs) ≡ length xs
length-map f [] = refl
length-map f (x ∷ xs) = ap suc (length-map f xs)

pub same_length_lem : (es ds : List Attempt) → cores es ≡ cores ds → length es ≡ length ds
same_length_lem es ds h = sym (length-map core es) ∙ (ap length h ∙ length-map core ds)

pub cores-map :
    (f : Attempt → Attempt)
    → ((e : Attempt) → core (f e) ≡ core e)
    → (es : List Attempt) → cores (map f es) ≡ cores es
cores-map f h [] = refl
cores-map f h (e ∷ es) = ap₂ ◌∷◌ (h e) (cores-map f h es)

-- A change of the marks of single attempts only.
pub ledger-Idle :
    (b : Budget) (f : Attempt → Attempt)
    → ((e : Attempt) → core (f e) ≡ core e)
    → Idle b (record b { ledger = map f b.ledger })
ledger-Idle b f h = record {
  same_limits = refl;
  same_cores = cores-map f h b.ledger;
  same_active = refl;
  same_peak = refl;
  same_bytes = refl;
  same_requested = refl;
  same_reserved = refl;
  same_input = refl;
  same_output = refl;
  stays_closed = λ c h. h;
}

at_id :
    (id : ℕ) (f : Attempt → Attempt)
    → ((e : Attempt) → core (f e) ≡ core e)
    → (e : Attempt) → core (if e.id == id then f e else e) ≡ core e
at_id id f h e = elim (Bool-cases (e.id == id)) [ inl k ↦ rw k (h e) | inr k ↦ rw k refl ]

pub update-Idle :
    (b : Budget) (id : ℕ) (f : Attempt → Attempt)
    → ((e : Attempt) → core (f e) ≡ core e)
    → Idle b (record b { ledger = update_attempt id f b.ledger })
update-Idle b id f h = ledger-Idle b (λ e. if e.id == id then f e else e) (at_id id f h)

pub abort_run-core : (code : Code) (e : Attempt) → core (abort_run code e) ≡ core e
unfolding abort_run
abort_run-core code e = marked e.outcome
  where
    waiting :
        (d : Attempt) (p : Settlement)
        → core
            (elim p as (λ _. Attempt) [ unsettled ↦ record d { usage_status = unknown } | _ ↦ d ])
          ≡ core d
    waiting d unsettled = refl
    waiting d fulfilled = refl
    waiting d rejected = refl

    marked :
        (o : Outcome)
        → core
            (elim (elim o as (λ _. Attempt) [
              | pending ↦ record e { outcome = refused; reason = some code }
              | _ ↦ e
            ]).provider_settlement
              as (λ _. Attempt) [
                | unsettled ↦
                    record (elim o as (λ _. Attempt) [
                      | pending ↦ record e { outcome = refused; reason = some code }
                      | _ ↦ e
                    ]) { usage_status = unknown }
                | _ ↦ elim o as (λ _. Attempt) [
                  | pending ↦ record e { outcome = refused; reason = some code }
                  | _ ↦ e
                ]
              ])
          ≡ core e
    marked pending =
        waiting (record e { outcome = refused; reason = some code }) e.provider_settlement
    marked succeeded = waiting e e.provider_settlement
    marked refused = waiting e e.provider_settlement

pub mark_refused-core : (code : Code) (e : Attempt) → core (mark_refused code e) ≡ core e
mark_refused-core code e = go e.outcome
  where
    go :
        (o : Outcome)
        → core (elim o [ pending ↦ record e { outcome = refused; reason = some code } | _ ↦ e ])
          ≡ core e
    go pending = refl
    go succeeded = refl
    go refused = refl
