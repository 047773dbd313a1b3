-- ===== src/Audit/Chain/Pages.antt =====
-- Verifying a log page by page: how the verdicts of two adjacent pages, the older one closed against
-- the newer one's first entry, bear on the verdict of the whole range.
use commitment_workbench.Prelude.{
  ◌≡◌, refl, sym, subst, ◌∙◌, ◌≢◌, ◌↔◌, inl, inr, Option, none, some, List, [], ◌∷◌, ◌++◌, Text,
}
use commitment_workbench.Audit.Hash.{genesis_sentinel as sentinel_text}
use commitment_workbench.Audit.Chain.{ChainEntry, verify_chain_range}
use commitment_workbench.Audit.Chain.Links.{
  MayFollow, IsSeamed, IsSeamedTo, newest_of, IsIntact, IsChain, verify_chain_range-clean_iff,
}

-- A genesis that follows an entry of its own epoch.
abbrev pub IsSecondGenesis : ChainEntry → ChainEntry → Type 0
IsSecondGenesis newest b = (b.sequence_num ≡ 0) × (newest.epoch_id ≡ b.epoch_id)

MayFollow-of_seamed : (newest b : ChainEntry) → IsSeamed newest b → MayFollow newest b
MayFollow-of_seamed newest b (inl (e, h)) = inl (sym e, inr h)
MayFollow-of_seamed newest b (inr (e, s, h)) = inr ((λ p. e (sym p)), s, h)

IsSeamed-of_linked :
    (newest b : ChainEntry) → ¬ IsSecondGenesis newest b → MayFollow newest b → IsSeamed newest b
IsSeamed-of_linked newest b h (inl (e, inl s)) = absurd (h (s, e))
IsSeamed-of_linked newest b h (inl (e, inr p)) = inl (sym e, p)
IsSeamed-of_linked newest b h (inr (e, s, p)) = inr ((λ q. e (sym q)), s, p)

newest_of-append :
    (e y : ChainEntry) (es ys : List ChainEntry) → newest_of e (es ++ y ∷ ys) ≡ newest_of y ys
newest_of-append e y [] ys = refl
newest_of-append e y (x ∷ es) ys = newest_of-append x y es ys

module _ (sha256 : Text → Text) where
  IsChain-append :
      (p : Option ChainEntry) (e y : ChainEntry) (es ys : List ChainEntry)
      → IsChain sha256 p (e ∷ es ++ y ∷ ys)
        ↔ (IsChain sha256 p (e ∷ es) × IsChain sha256 (some (newest_of e es)) (y ∷ ys))
  IsChain-append p e y [] ys =
      ((λ (i, s, l, rest). ((i, s, l, tt), rest)), λ ((i, s, l, _), rest). (i, s, l, rest))
  IsChain-append p e y (x ∷ es) ys =
      let ih = IsChain-append (some e) x y es ys in
      (
        (λ (i, s, l, rest). let (a, b) = ih.0 rest in ((i, s, l, a), b)),
        λ ((i, s, l, a), b). (i, s, l, ih.1 (a, b)),
      )

  IsSeamedTo-append :
      (e y : ChainEntry) (es ys : List ChainEntry) (b : Option ChainEntry)
      → IsSeamedTo (newest_of y ys) b
      → IsSeamedTo (newest_of e (es ++ y ∷ ys)) b
  IsSeamedTo-append e y es ys b s = subst (λ n. IsSeamedTo n b) (sym (newest_of-append e y es ys)) s

  module _ (e y : ChainEntry) (es ys : List ChainEntry) (boundary : Option ChainEntry) where
    -- When the older page has no break up to and over its seam to the newer page's first entry, and the
    -- newer page has none up to and over its own seam, the two pages together have no break.
    pub verify_pages_sound :
        (verify_chain_range sha256 (e ∷ es) (some y)).breaks ≡ []
        → (verify_chain_range sha256 (y ∷ ys) boundary).breaks ≡ []
        → (verify_chain_range sha256 (e ∷ es ++ y ∷ ys) boundary).breaks ≡ []
    verify_pages_sound h k =
        let (c, s) = (verify_chain_range-clean_iff sha256 e es (some y)).0 h in
        let ((i, g, _, rest), t) = (verify_chain_range-clean_iff sha256 y ys boundary).0 k in
        (verify_chain_range-clean_iff sha256 e (es ++ y ∷ ys) boundary).1 (
          (IsChain-append none e y es ys).1
              (c, (i, g, MayFollow-of_seamed (newest_of e es) y s, rest)),
          IsSeamedTo-append e y es ys boundary t,
        )

    -- When a range has no break, neither has either of its two pages, unless the newer page begins with
    -- a second genesis of the epoch in which the older one ends.
    pub verify_pages_complete :
        ¬ IsSecondGenesis (newest_of e es) y
        → (verify_chain_range sha256 (e ∷ es ++ y ∷ ys) boundary).breaks ≡ []
        → ((verify_chain_range sha256 (e ∷ es) (some y)).breaks ≡ [])
          × ((verify_chain_range sha256 (y ∷ ys) boundary).breaks ≡ [])
    verify_pages_complete fresh h =
        let (c, t) = (verify_chain_range-clean_iff sha256 e (es ++ y ∷ ys) boundary).0 h in
        let (a, (i, g, l, rest)) = (IsChain-append none e y es ys).0 c in
        (
          (verify_chain_range-clean_iff sha256 e es (some y)).1
              (a, IsSeamed-of_linked (newest_of e es) y fresh l),
          (verify_chain_range-clean_iff sha256 y ys boundary).1
              ((i, g, tt, rest), subst (λ n. IsSeamedTo n boundary) (newest_of-append e y es ys) t),
        )

  -- A second genesis inside an epoch is not a break of the range that holds it, whatever came before:
  -- behind a range without breaks, an intact row of sequence number 0 with the sentinel and the epoch
  -- of the newest row leaves the range without breaks. The same row given as the entry that follows
  -- the range is reported, unless the newest row's hash is the sentinel itself.
  pub second_genesis_unreported :
      (e g : ChainEntry) (es : List ChainEntry)
      → (verify_chain_range sha256 (e ∷ es) none).breaks ≡ []
      → IsSecondGenesis (newest_of e es) g
      → IsIntact sha256 g
      → g.prev_hash ≡ sentinel_text
      → (newest_of e es).hash ≢ sentinel_text
      → ((verify_chain_range sha256 (e ∷ es ++ g ∷ []) none).breaks ≡ [])
        × ((verify_chain_range sha256 (e ∷ es) (some g)).breaks ≢ [])
  second_genesis_unreported e g es h (zero_th, epoch) i p ne =
      let (c, _) = (verify_chain_range-clean_iff sha256 e es none).0 h in
      (
        (verify_chain_range-clean_iff sha256 e (es ++ g ∷ []) none).1
            ((IsChain-append none e g es []).1 (c, (i, inr p, inl (epoch, inl zero_th), tt)), tt),
        λ bad. unseamed ((verify_chain_range-clean_iff sha256 e es (some g)).0 bad).1,
      )
    where
      unseamed : IsSeamed (newest_of e es) g → ⊥
      unseamed (inl (q, r)) = ne (sym r ∙ p)
      unseamed (inr (q, _, _)) = q (sym epoch)
