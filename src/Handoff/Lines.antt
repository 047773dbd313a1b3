-- ===== src/Handoff/Lines.antt =====
-- createCommitmentSourceIndex: the ranges of a body and its lines.
use commitment_workbench.Prelude.{
  ℕ, zero, suc, ◌+◌, ◌≡◌, refl, sym, ap, ap₂, subst, ◌∙◌, inl, inr, Bool, true, false, List, [],
  ◌∷◌, ◌++◌, map, append-nil, append_assoc, arith, Bool-cases, Text, ltb, length, length-append,
  take, drop, if◌then◌else◌,
}
use commitment_workbench.Handoff.{slice}
use commitment_workbench.Handoff.Index.{
  Scan, append_line, is_break, is_crlf, scan_unit, scan_lines, scan_body, indexed_lines_per_message,
}

abbrev prefix : ℕ → List Text → List Text
prefix c [] = []
prefix c (l ∷ ls) = (c ∷ l) ∷ ls

-- The lines of a text, without their breaks.
unfoldable pub lines_on : Bool → Text → List Text
lines_on skip [] = [] ∷ []
lines_on true (c ∷ cs) = lines_on false cs
lines_on false (c ∷ cs) =
    let rest = lines_on (is_crlf c cs) cs in if is_break c then [] ∷ rest else prefix c rest

abbrev pub lines_of : Text → List Text
lines_of s = lines_on false s

drop-length : (a b : Text) → drop (length a) (a ++ b) ≡ b
drop-length [] b = refl
drop-length (c ∷ a) b = drop-length a b

take-length : (a b : Text) → take (length a) (a ++ b) ≡ a
take-length [] b = refl
take-length (c ∷ a) b = ap (λ u. c ∷ u) (take-length a b)

length-map : (f : ℕ × ℕ → Text) (xs : List (ℕ × ℕ)) → length (map f xs) ≡ length xs
length-map f [] = refl
length-map f (x ∷ xs) = ap suc (length-map f xs)

take-map : (n : ℕ) (f : ℕ × ℕ → Text) (xs : List (ℕ × ℕ)) → take n (map f xs) ≡ map f (take n xs)
take-map zero f xs = refl
take-map (suc n) f [] = refl
take-map (suc n) f (x ∷ xs) = ap (λ u. f x ∷ u) (take-map n f xs)

slice_lem :
    (pre cur rest : Text)
    → slice (length pre) (length pre + length cur) (pre ++ (cur ++ rest)) ≡ cur
slice_lem pre cur rest =
    ap₂ take (omega arith) (drop-length pre (cur ++ rest)) ∙ take-length cur rest

take_snoc :
    (n : ℕ) (xs : List (ℕ × ℕ)) (r : ℕ × ℕ)
    → (if ltb (length (take n xs)) n then take n xs ++ r ∷ [] else take n xs)
      ≡ take n (xs ++ r ∷ [])
take_snoc zero xs r = refl
take_snoc (suc zero) [] r = refl
take_snoc (suc (suc n)) [] r = let k : ltb 0 (suc (suc n)) ≡ true = ground arith in rw k refl
take_snoc (suc n) (x ∷ xs) r =
    let same : ltb (suc (length (take n xs))) (suc n) ≡ ltb (length (take n xs)) n = ground arith in
    rw same (under (ltb (length (take n xs)) n) (take_snoc n xs r))
  where
    under :
        (b : Bool)
        → (if b then take n xs ++ r ∷ [] else take n xs) ≡ take n (xs ++ r ∷ [])
        → (if b then x ∷ (take n xs ++ r ∷ []) else x ∷ take n xs) ≡ x ∷ take n (xs ++ r ∷ [])
    under true h = ap (λ u. x ∷ u) h
    under false h = ap (λ u. x ∷ u) h

abbrev add_front : Text → List Text → List Text
add_front cur [] = []
add_front cur (l ∷ ls) = (cur ++ l) ∷ ls

add_front_none : (ls : List Text) → add_front [] ls ≡ ls
add_front_none [] = refl
add_front_none (l ∷ ls) = refl

add_front-prefix :
    (cur : Text) (c : ℕ) (ls : List Text)
    → add_front (cur ++ c ∷ []) ls ≡ add_front cur (prefix c ls)
add_front-prefix cur c [] = refl
add_front-prefix cur c (l ∷ ls) = ap (λ u. u ∷ ls) (append_assoc cur (c ∷ []) l)

-- The state agrees with all the ranges found so far.
record Holds (found : List (ℕ × ℕ)) (st : Scan) : Type 0 where
  count_eq : st.line_count ≡ length found
  lines_eq : st.lines ≡ take indexed_lines_per_message found

append_line-Holds :
    (found : List (ℕ × ℕ)) (end : ℕ) (st : Scan)
    → Holds found st
    → Holds (found ++ (st.start, end) ∷ []) (append_line end st)
append_line-Holds found end st h = record {
  count_eq = omega (arith, h.count_eq, length-append found ((st.start, end) ∷ []));
  lines_eq =
      ap
        (λ ls. if ltb (length ls) indexed_lines_per_message then ls ++ (st.start, end) ∷ [] else ls)
        h.lines_eq
      ∙ take_snoc indexed_lines_per_message found (st.start, end);
}

after_append :
    (found : List (ℕ × ℕ)) (end : ℕ) (st : Scan) (n : ℕ)
    → Holds found st
    → Holds (found ++ (st.start, end) ∷ []) (record (append_line end st) { start = n })
after_append found end st n h =
    let k = append_line-Holds found end st h in
    record { count_eq = k.count_eq; lines_eq = k.lines_eq }

-- The scan found these ranges more, which are these texts of the body.
abbrev Found : Text → List (ℕ × ℕ) → List Text → Scan → Type 0
Found body found texts out =
    (new : List (ℕ × ℕ)) × Holds (found ++ new) out × (map (λ r. slice r.0 r.1 body) new ≡ texts)

after_break :
    (body cur : Text) (found : List (ℕ × ℕ)) (r : ℕ × ℕ) (ls : List Text) (out : Scan)
    → slice r.0 r.1 body ≡ cur
    → Found body (found ++ r ∷ []) (add_front [] ls) out
    → Found body found (add_front cur ([] ∷ ls)) out
after_break body cur found r ls out e (new, h, m) = (
  r ∷ new,
  subst (λ f. Holds f out) (append_assoc found (r ∷ []) new) h,
  ap₂ ◌∷◌ (e ∙ sym (append-nil cur)) (m ∙ add_front_none ls),
)

range_text :
    (body pre cur rest : Text) (a b : ℕ)
    → body ≡ pre ++ (cur ++ rest)
    → a ≡ length pre
    → b ≡ length pre + length cur
    → slice a b body ≡ cur
range_text body pre cur rest a b e p q = rw (e, p, q) (slice_lem pre cur rest)

not_crlf : (c : ℕ) (cs : Text) → is_break c ≡ false → is_crlf c cs ≡ false
not_crlf c [] h = refl
not_crlf c (d ∷ cs) h = ground (arith, h)

-- The next line begins behind the break `k`.
next_line :
    (body pre cur k rest : Text)
    → body ≡ pre ++ (cur ++ (k ++ rest))
    → body ≡ (pre ++ (cur ++ k)) ++ ([] ++ rest)
next_line body pre cur k rest e =
    e ∙ ap (λ u. pre ++ u) (sym (append_assoc cur k rest)) ∙ sym (append_assoc pre (cur ++ k) rest)

behind :
    (pre cur k : Text) (o : ℕ)
    → o ≡ length pre + length cur
    → o + length k ≡ length (pre ++ (cur ++ k))
behind pre cur k o q = omega (arith, q, length-append pre (cur ++ k), length-append cur k)

module _ (body : Text) where
  -- From any line that has begun, the scan of what is left finds the lines of it.
  abbrev Finds : Text → Type 0
  Finds rest =
      (pre cur : Text) (found : List (ℕ × ℕ)) (st : Scan) (o : ℕ)
      → body ≡ pre ++ (cur ++ rest)
      → st.start ≡ length pre
      → o ≡ length pre + length cur
      → Holds found st
      → Found body found (add_front cur (lines_on false rest)) (scan_lines o false rest st)

  no_rest : Finds []
  unfolding scan_lines lines_on
  no_rest pre cur found st o e p q h = (
    (st.start, o) ∷ [],
    append_line-Holds found o st h,
    ap (λ u. u ∷ []) (range_text body pre cur [] st.start o e p q ∙ sym (append-nil cur)),
  )

  one_unit : (c : ℕ) (cs : Text) → is_crlf c cs ≡ false → Finds cs → Finds (c ∷ cs)
  unfolding scan_lines lines_on
  one_unit c cs k ih pre cur found st o e p q h = elim (Bool-cases (is_break c)) [
    | inl b ↦
        let r : ℕ × ℕ = (st.start, o) in
        let size = behind pre cur (c ∷ []) o q in
        rw (k, b)
          (after_break body cur found r (lines_on false cs) _
            (range_text body pre cur (c ∷ cs) st.start o e p q)
            (ih (pre ++ (cur ++ c ∷ [])) [] (found ++ r ∷ []) _ (suc o)
              (next_line body pre cur (c ∷ []) cs e) size (omega (arith, size))
              (after_append found o st (o + 1) h)))
    | inr b ↦
        rw (k, b)
          (subst (λ ls. Found body found ls (scan_lines (suc o) false cs st))
            (add_front-prefix cur c (lines_on false cs))
            (ih pre (cur ++ c ∷ []) found st (suc o)
              (e ∙ ap (λ u. pre ++ u) (sym (append_assoc cur (c ∷ []) cs))) p
              (omega (arith, q, length-append cur (c ∷ []))) h))
  ]

  scan_two :
      (c d : ℕ) (cs : Text) (o : ℕ) (st : Scan)
      → is_crlf c (d ∷ cs) ≡ true
      → is_break c ≡ true
      → scan_lines o false (c ∷ d ∷ cs) st
        ≡ scan_lines (suc (suc o)) false cs (record (append_line o st) { start = o + 2 })
  unfolding scan_lines
  scan_two c d cs o st k b =
      ap (λ t. scan_lines (suc o) t (d ∷ cs) (scan_unit o c t st)) k
      ∙ ap
          (λ t.
            scan_lines (suc (suc o)) false cs
              (if t then record (append_line o st) { start = o + 2 } else st))
          b

  two_units : (c d : ℕ) (cs : Text) → is_crlf c (d ∷ cs) ≡ true → Finds cs → Finds (c ∷ d ∷ cs)
  unfolding lines_on
  two_units c d cs k ih pre cur found st o e p q h =
      let r : ℕ × ℕ = (st.start, o) in
      let b : is_break c ≡ true = ground (arith, k) in
      let size = behind pre cur (c ∷ d ∷ []) o q in
      rw (scan_two c d cs o st k b, k, b)
        (after_break body cur found r (lines_on false cs) _
          (range_text body pre cur (c ∷ d ∷ cs) st.start o e p q)
          (ih (pre ++ (cur ++ c ∷ d ∷ [])) [] (found ++ r ∷ []) _ (suc (suc o))
            (next_line body pre cur (c ∷ d ∷ []) cs e) size (omega (arith, size))
            (after_append found o st (o + 2) h)))

  scan-Finds : (rest : Text) → Finds rest
  scan-Finds [] = no_rest
  scan-Finds (c ∷ []) = one_unit c [] refl no_rest
  scan-Finds (c ∷ d ∷ cs) = elim (Bool-cases (is_crlf c (d ∷ cs))) [
    | inl k ↦ two_units c d cs k (scan-Finds cs)
    | inr k ↦ one_unit c (d ∷ cs) k (scan-Finds (d ∷ cs))
  ]

  -- The ranges of a body's index cut out of it its first 256 lines, in order, where a line ends at CR LF
  -- together, CR, LF, NEL, LS or PS, or with the body; and the line count is the number of its lines.
  pub scan_body_lines :
      ((scan_body body).line_count ≡ length (lines_of body))
      × (map (λ r. slice r.0 r.1 body) (scan_body body).lines
          ≡ take indexed_lines_per_message (lines_of body))
  unfolding scan_body
  scan_body_lines =
      let start : Scan = record { start = 0; line_count = 0; lines = [] } in
      let (new, h, m) =
        scan-Finds body [] [] [] start 0 refl refl (omega arith)
          (record { count_eq = refl; lines_eq = refl }) in
      let texts = m ∙ add_front_none (lines_of body) in
      (
        h.count_eq ∙ (sym (length-map (λ r. slice r.0 r.1 body) new) ∙ ap length texts),
        ap (map (λ r. slice r.0 r.1 body)) h.lines_eq
            ∙ (sym (take-map indexed_lines_per_message (λ r. slice r.0 r.1 body) new)
                ∙ ap (take indexed_lines_per_message) texts),
      )
