-- ===== src/Store/AuditLog/Delivery.antt =====
-- The walk of packages/cli/src/audit/walk.ts over the pages that listAuditEntries serves.
use commitment_workbench.Prelude.{
  ℕ, zero, suc, ◌+◌, ◌-◌, ◌≤◌, ◌<◌, ◌≡◌, refl, sym, ap, ap₂, subst, ◌∙◌, ◌≢◌, ◌⊎◌, inl, inr, Bool,
  true, false, Option, none, some, List, [], ◌∷◌, ◌++◌, reverse, append-nil, append_assoc, arith,
  Text, leb, ltb, All, length, length-append, length-drop, take, drop, take-append-drop,
}
use mathlib.Core.List.{reverse-append, reverse-reverse}
use commitment_workbench.Audit.Chain.{ChainEntry}
use commitment_workbench.LogWalk.{
  AuditListResponse, WalkState, StopReason, Round, ends, goes_on, exhausted, initial, last_of,
  sorts_strictly_below, take_page, verify_page, handle_page, round, loop, walk_audit_chain,
  audit_max_pages, has_stalled, after_page,
}
use commitment_workbench.LogWalk.Rounds.{rows, rows-snoc, init_of}
use commitment_workbench.Store.Tables.{Sorted, order_by-Sorted}
use commitment_workbench.Store.AuditLog.{newer}
use commitment_workbench.Store.AuditLog.Order.{
  All-reverse, newer_irrefl, newer_trans, Rising, order_by-Rising,
}
use commitment_workbench.Store.AuditLog.Queries.{select_audit_chain_page}
use commitment_workbench.Store.AuditLog.Reads.{
  Limit, clamp_audit_page_limit, encode_audit_cursor, decode_audit_cursor, next_cursor_of,
  list_audit_entries,
}
use commitment_workbench.Store.AuditLog.Paging.{
  decode-encode, select_audit_chain_page-after, Rising-Apart,
}
use commitment_workbench.Store.AuditLog.Served.{
  clamp_one, take-take, more_left, IsAddressable, last_page, Sorted-middle, All-middle,
  length-reverse,
}

-- The client and the engine: base64 that reads back, a log whose rows have rising keys and can be
-- addressed, a limit, and no cancel signal.
module _ (sha256 : Text → Text) (btoa : Text → Text) (atob : Text → Option Text)
    (inverse : (s : Text) → atob (btoa s) ≡ some s) (kept : (s : Text) → s ≢ [] → btoa s ≢ [])
    (limit : Limit) (t : List ChainEntry) (rising : Rising newer t)
    (addressable : All IsAddressable t) (verify : Bool) where
  -- The engine's answer to a request.
  abbrev fetch : ℕ → Option Text → AuditListResponse
  fetch n cursor = list_audit_entries btoa atob limit cursor t

  abbrev never : ℕ → Bool
  never n = false

  -- Where the walk stands behind the rows `before`.
  abbrev IsAt : Option Text → Option ChainEntry → List ChainEntry → Type 0
  IsAt cursor previous before =
      ((before ≡ []) × (cursor ≡ none) × (previous ≡ none))
      ⊎ ((xs : List ChainEntry) × (c : ChainEntry) × (before ≡ xs ++ c ∷ [])
          × (cursor ≡ some (encode_audit_cursor btoa atob (c.epoch_id, c.sequence_num)))
          × (previous ≡ some c))

  cut_behind :
      (before xs todo : List ChainEntry) (c : ChainEntry)
      → before ≡ xs ++ c ∷ []
      → reverse t ≡ before ++ todo
      → reverse t ≡ xs ++ c ∷ todo
  cut_behind before xs todo c b e = e ∙ ap (λ u. u ++ todo) b ∙ append_assoc xs (c ∷ []) todo

  page_lem :
      (n : ℕ) (cursor : Option Text) (previous : Option ChainEntry) (before todo : List ChainEntry)
      → IsAt cursor previous before
      → reverse t ≡ before ++ todo
      → select_audit_chain_page n (decode_audit_cursor btoa atob cursor) t ≡ take n todo
  page_lem n cursor previous before todo (inl (b, c, p)) e =
      ap (λ k. select_audit_chain_page n (decode_audit_cursor btoa atob k) t) c
      ∙ unfold select_audit_chain_page decode_audit_cursor in
        ap (take n) (order_by-Rising newer t rising ∙ e ∙ ap (λ u. u ++ todo) b)
  page_lem n cursor previous before todo (inr (xs, c, b, k, p)) e =
      let cut = cut_behind before xs todo c b e in
      let (plain, safe) =
        All-middle IsAddressable xs todo c
          (subst (All IsAddressable) cut (All-reverse IsAddressable t addressable)) in
      ap (λ o. select_audit_chain_page n (decode_audit_cursor btoa atob o) t) k
      ∙ ap (λ o. select_audit_chain_page n o t)
          (decode-encode btoa atob inverse kept c.epoch_id c.sequence_num plain safe)
      ∙ (select_audit_chain_page-after n t xs todo c rising cut).1

  abbrev page_answer : List ChainEntry → Bool → AuditListResponse
  page_answer page more = record {
    entries = page;
    next_cursor = next_cursor_of btoa atob more page;
  }

  abbrev cut_page : ℕ → List ChainEntry → AuditListResponse
  cut_page k rows = page_answer (take k rows) (ltb k (length rows))

  response_lem :
      (m n : ℕ) (cursor : Option Text) (previous : Option ChainEntry)
      (before todo : List ChainEntry)
      → clamp_audit_page_limit limit ≡ suc m
      → IsAt cursor previous before
      → reverse t ≡ before ++ todo
      → fetch n cursor ≡ cut_page (suc m) todo
  unfolding list_audit_entries
  response_lem m n cursor previous before todo l at e =
      ap
        (λ k. cut_page k (select_audit_chain_page (suc k) (decode_audit_cursor btoa atob cursor) t))
        l
      ∙ ap (cut_page (suc m)) (page_lem (suc (suc m)) cursor previous before todo at e)
      ∙ ap₂ page_answer (take-take (suc m) todo) (more_left (suc m) todo)

  no_stall :
      (cursor : Option Text) (previous : Option ChainEntry) (before ys : List ChainEntry)
      (y : ChainEntry)
      → IsAt cursor previous before
      → reverse t ≡ before ++ y ∷ ys
      → has_stalled previous y ≡ false
  no_stall cursor previous before ys y (inl (b, c, p)) e = rw p refl
  no_stall cursor previous before ys y (inr (xs, c, b, k, p)) e =
      let cut = cut_behind before xs (y ∷ ys) c b e in
      let sorted : Sorted newer (xs ++ c ∷ y ∷ ys) =
        subst (Sorted newer) (order_by-Rising newer t rising ∙ cut)
          (order_by-Sorted newer newer_irrefl newer_trans t (Rising-Apart t rising)) in
      let below : sorts_strictly_below y c ≡ true =
        unfold sorts_strictly_below newer in Sorted-middle xs ys c y sorted in
      rw (p, below) refl

  abbrev taken : ChainEntry → List ChainEntry → WalkState → WalkState
  taken y rest s = take_page sha256 verify y rest s

  -- What a page leaves in the state, whether it is verified or not.
  record Took (y : ChainEntry) (rest : List ChainEntry) (s u : WalkState) : Type 0 where
    delivered_eq : u.delivered ≡ s.delivered ++ (y ∷ rest) ∷ []
    previous_eq : u.previous_oldest ≡ some (last_of y rest)
    pages_eq : u.pages_fetched ≡ s.pages_fetched + 1

  take_page-Took :
      (y : ChainEntry) (rest : List ChainEntry) (s : WalkState) → Took y rest s (taken y rest s)
  unfolding take_page verify_page
  take_page-Took y rest s = go verify
    where
      go : (b : Bool) → Took y rest s (take_page sha256 b y rest s)
      go true = record { delivered_eq = refl; previous_eq = refl; pages_eq = refl }
      go false = record { delivered_eq = refl; previous_eq = refl; pages_eq = refl }

  round_lem :
      (m : ℕ) (s : WalkState) (before ys : List ChainEntry) (y : ChainEntry)
      → clamp_audit_page_limit limit ≡ suc m
      → IsAt s.cursor s.previous_oldest before
      → reverse t ≡ before ++ y ∷ ys
      → s.pages_fetched < audit_max_pages
      → round sha256 fetch never verify s
        ≡ after_page
            (taken y (take m ys) s)
            (next_cursor_of btoa atob (ltb (suc m) (length (y ∷ ys))) (y ∷ take m ys))
  unfolding round handle_page
  round_lem m s before ys y l at e few =
      let open_page : leb audit_max_pages s.pages_fetched ≡ false = ground (arith, few) in
      let stall = no_stall s.cursor s.previous_oldest before ys y at e in
      let r = response_lem m s.pages_fetched s.cursor s.previous_oldest before (y ∷ ys) l at e in
      rw (open_page, r, stall) refl

  -- The walk ends with every row delivered.
  abbrev Delivers : Option (WalkState × StopReason) → Type 0
  Delivers o =
      (s : WalkState) × (o ≡ some (s, exhausted))
      × (rows s.delivered ≡ t)
      × (s.cursor_exhausted ≡ true)

  abbrev continue : ℕ → Round → Option (WalkState × StopReason)
  continue f (ends s reason) = some (s, reason)
  continue f (goes_on s) = loop sha256 fetch never f verify s

  loop-suc :
      (f : ℕ) (s : WalkState)
      → loop sha256 fetch never (suc f) verify s ≡ continue f (round sha256 fetch never verify s)
  unfolding loop
  loop-suc f s = go (round sha256 fetch never verify s)
    where
      go :
          (r : Round)
          → elim r [
            | ends s' reason ↦ some (s', reason)
            | goes_on s' ↦ loop sha256 fetch never f verify s'
          ]
            ≡ continue f r
      go (ends s' reason) = refl
      go (goes_on s') = refl

  delivered_more :
      (y : ChainEntry) (rest before : List ChainEntry) (s u : WalkState)
      → Took y rest s u
      → rows s.delivered ≡ reverse before
      → rows u.delivered ≡ reverse (before ++ y ∷ rest)
  delivered_more y rest before s u k h =
      ap rows k.delivered_eq
      ∙ rows-snoc s.delivered (y ∷ rest)
      ∙ ap (λ r. reverse (y ∷ rest) ++ r) h
      ∙ sym (reverse-append before (y ∷ rest))

  pub walk_from :
      (f m : ℕ) (s : WalkState) (before ys : List ChainEntry) (y : ChainEntry)
      → clamp_audit_page_limit limit ≡ suc m
      → IsAt s.cursor s.previous_oldest before
      → reverse t ≡ before ++ y ∷ ys
      → rows s.delivered ≡ reverse before
      → s.pages_fetched ≤ length before
      → length before + length (y ∷ ys) ≤ audit_max_pages
      → length (y ∷ ys) < f
      → Delivers (loop sha256 fetch never f verify s)
  walk_from zero m s before ys y l at e got pages all fuel = absurd (omega arith)
  walk_from (suc f) m s before ys y l at e got pages all fuel =
      let rest = take m ys in
      let u = taken y rest s in
      let took = take_page-Took y rest s in
      let more = delivered_more y rest before s u took got in
      let step =
        loop-suc f s
        ∙ ap (continue f) (round_lem m s before ys y l at e (omega (arith, pages, all))) in
      go (walk_from f m) (drop m ys) (take-append-drop m ys) (length-drop m ys) u took more step
    where
      go :
          ((s : WalkState) (before ys : List ChainEntry) (y : ChainEntry)
            → clamp_audit_page_limit limit ≡ suc m
            → IsAt s.cursor s.previous_oldest before
            → reverse t ≡ before ++ y ∷ ys
            → rows s.delivered ≡ reverse before
            → s.pages_fetched ≤ length before
            → length before + length (y ∷ ys) ≤ audit_max_pages
            → length (y ∷ ys) < f
            → Delivers (loop sha256 fetch never f verify s))
          → (left : List ChainEntry) → take m ys ++ left ≡ ys
          → length left ≡ length ys - m
          → (u : WalkState) → Took y (take m ys) s u
          → rows u.delivered ≡ reverse (before ++ y ∷ take m ys)
          → loop sha256 fetch never (suc f) verify s
            ≡ continue f (
                after_page u
                  (next_cursor_of btoa atob (ltb (suc m) (length (y ∷ ys))) (y ∷ take m ys)))
          → Delivers (loop sha256 fetch never (suc f) verify s)
      go ih [] c n u took more step =
          let none_left : ltb (suc m) (suc (length ys)) ≡ false = ground (arith, n) in
          let whole : before ++ y ∷ take m ys ≡ reverse t =
            ap (λ v. before ++ y ∷ v) (sym (append-nil (take m ys)) ∙ c) ∙ sym e in
          (
            record u { cursor_exhausted = true },
            step
                ∙ ap (λ b. continue f (after_page u (next_cursor_of btoa atob b (y ∷ take m ys))))
                    none_left,
            more ∙ ap reverse whole ∙ reverse-reverse t,
            refl,
          )
      go ih (z ∷ zs) c n u took more step =
          let some_left : ltb (suc m) (suc (length ys)) ≡ true = ground (arith, n) in
          let rest = take m ys in
          let o = last_of y rest in
          let cursor = encode_audit_cursor btoa atob (o.epoch_id, o.sequence_num) in
          let behind : before ++ y ∷ rest ≡ (before ++ init_of y rest) ++ o ∷ [] =
            ap (λ v. before ++ v) (last_page y rest)
            ∙ sym (append_assoc before (init_of y rest) (o ∷ [])) in
          let size = length-append before (y ∷ rest) in
          let sum = sym (length-append rest (z ∷ zs)) ∙ ap length c in
          let (v, end, got', full) =
            ih (record u { cursor = some cursor }) (before ++ y ∷ rest) zs z l
              (inr (before ++ init_of y rest, o, behind, refl, took.previous_eq))
              (e
                ∙ ap (λ v. before ++ y ∷ v) (sym c)
                ∙ sym (append_assoc before (y ∷ rest) (z ∷ zs)))
              more (omega (arith, took.pages_eq, pages, size)) (omega (arith, size, sum, all))
              (omega (arith, sum, fuel)) in
          (
            v,
            step
                ∙ ap (λ b. continue f (after_page u (next_cursor_of btoa atob b (y ∷ rest))))
                    some_left
                ∙ end,
            got',
            full,
          )

  empty_walk :
      (m : ℕ)
      → clamp_audit_page_limit limit ≡ suc m
      → reverse t ≡ []
      → Delivers (loop sha256 fetch never (suc audit_max_pages) verify initial)
  unfolding round handle_page
  empty_walk m l e =
      let r = response_lem m 0 none none [] [] l (inl (refl, refl, refl)) e in
      let none_left : ltb (suc m) 0 ≡ false = ground arith in
      let ended : round sha256 fetch never verify initial
          ≡ ends (record initial { cursor_exhausted = true }) exhausted =
        rw (r, none_left) refl in
      (
        record initial { cursor_exhausted = true },
        loop-suc audit_max_pages initial ∙ ap (continue audit_max_pages) ended,
        sym (ap reverse e) ∙ reverse-reverse t,
        refl,
      )

  -- The client's walk over the pages of the engine ends as exhausted with every row of the log delivered
  -- once and in order, whatever the size of the pages, where the log has at most 10,000 rows with rising
  -- keys whose epochs have no separator in them and whose sequence numbers are safe, base64 reads back,
  -- and nothing cancels the walk.
  pub walk_audit_chain-Delivers :
      length t ≤ audit_max_pages → Delivers (walk_audit_chain sha256 fetch never verify)
  unfolding walk_audit_chain
  walk_audit_chain-Delivers few = let (m, l) = clamp_one limit in go m l (reverse t) refl
    where
      go :
          (m : ℕ)
          → clamp_audit_page_limit limit ≡ suc m
          → (r : List ChainEntry) → reverse t ≡ r
          → Delivers (loop sha256 fetch never (suc audit_max_pages) verify initial)
      go m l [] e = empty_walk m l e
      go m l (y ∷ ys) e =
          let size = sym (length-reverse t) ∙ ap length e in
          walk_from (suc audit_max_pages) m initial [] ys y l (inl (refl, refl, refl)) e refl
            (omega arith) (omega (arith, size, few)) (omega (arith, size, few))
