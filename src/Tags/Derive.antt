-- ===== src/Tags/Derive.antt =====
-- Derivation of tags: where the cut lies, and that a derived tag derives as its origin does.
use bhtune.Common.{
  ℕ, suc, ◌≡◌, refl, sym, ap, subst, ◌∙◌, ◌⊎◌, inl, inr, true, false, [], ◌∷◌, ◌++◌, none, some,
  Option-cases, Bool-cases, if◌then◌else◌, take, arith,
}
use bhtune.Common.Text.{Text, Chars}
use bhtune.Tags.{rfind, cut_of, kept_prefix, derive_tag, is_blank}
use bhtune.Tags.Search.{rfind-some, rfind-append, rfind-take, rfind-take-none, take-take-append}

-- No separator that a tag is cut at.
pub record HasNoSeparator (s : Text) : Type 0 where
  pub dot : rfind b'.' s ≡ none
  pub bang : rfind b'!' s ≡ none
  pub slash : rfind b'/' s ≡ none

cut_of-append : (xs suffix : Text) → HasNoSeparator suffix → cut_of (xs ++ suffix) ≡ cut_of xs
unfolding cut_of
cut_of-append xs suffix n = rw (
  rfind-append b'.' xs suffix n.dot,
  rfind-append b'!' xs suffix n.bang,
  rfind-append b'/' xs suffix n.slash,
)

cut_of-take : (pv : Text) (i : ℕ) → cut_of pv ≡ some i → cut_of (take (suc i) pv) ≡ some i
unfolding cut_of
cut_of-take pv i h = ground (
  arith,
  rfind-take b'.' pv i,
  rfind-take b'!' pv i,
  rfind-take b'/' pv i,
  rfind-take-none b'.' pv (suc i),
  rfind-take-none b'!' pv (suc i),
)

cut_of-some :
    (pv : Text) (i : ℕ)
    → cut_of pv ≡ some i
    → (rfind b'.' pv ≡ some i) ⊎ (rfind b'!' pv ≡ some i) ⊎ (rfind b'/' pv ≡ some i)
unfolding cut_of
cut_of-some pv i h = ground arith

take-cut_of-append :
    (pv t : Text) (i : ℕ)
    → cut_of pv ≡ some i
    → take (suc i) (take (suc i) pv ++ t) ≡ take (suc i) pv
take-cut_of-append pv t i h = elim (cut_of-some pv i h) [
  | inl e ↦ take-take-append _ pv t i e
  | inr (inl e) ↦ take-take-append _ pv t i e
  | inr (inr e) ↦ take-take-append _ pv t i e
]

kept_prefix-some : (pv : Text) (i : ℕ) → cut_of pv ≡ some i → kept_prefix pv ≡ take (suc i) pv
unfolding kept_prefix
kept_prefix-some pv i h = rw (h, kept_prefix)

kept_prefix-none : (pv : Text) → cut_of pv ≡ none → kept_prefix pv ≡ []
unfolding kept_prefix
kept_prefix-none pv h = rw (h, kept_prefix)

-- Appending text without a separator to the kept prefix keeps the cut.
kept_prefix-append :
    (pv suffix : Text)
    → HasNoSeparator suffix
    → kept_prefix (kept_prefix pv ++ suffix) ≡ kept_prefix pv
kept_prefix-append pv suffix n = elim (Option-cases (cut_of pv)) [
  | inl e ↦
      let before = kept_prefix-none pv e in
      subst (λ k. kept_prefix (k ++ suffix) ≡ k) (sym before)
        (kept_prefix-none suffix (cut_of-append [] suffix n ∙ no_cut))
  | inr (i, e) ↦
      let before = kept_prefix-some pv i e in
      subst (λ k. kept_prefix (k ++ suffix) ≡ k) (sym before)
        (kept_prefix-some (take (suc i) pv ++ suffix) i
            (cut_of-append (take (suc i) pv) suffix n ∙ cut_of-take pv i e)
          ∙ take-cut_of-append pv suffix i e)
]
  where
    no_cut : cut_of [] ≡ none
    no_cut = unfold cut_of rfind in refl

-- A tag that is its prefix, up to the last of the separators `c`, and a rest.
abbrev pub IsCutAt : ℕ → Text → Text → Type 0
IsCutAt c pv prefix =
    (head : Text) × (rest : Text) × (pv ≡ head ++ (c ∷ rest))
    × (prefix ≡ head ++ (c ∷ []))
    × (rfind c rest ≡ none)

-- The prefix that is kept: up to the last `.`, else the last `!`, else the last `/`, else nothing.
abbrev pub IsKeptPrefix : Text → Text → Type 0
IsKeptPrefix pv prefix =
    IsCutAt b'.' pv prefix
    ⊎ ((rfind b'.' pv ≡ none) × IsCutAt b'!' pv prefix)
    ⊎ ((rfind b'.' pv ≡ none) × (rfind b'!' pv ≡ none) × IsCutAt b'/' pv prefix)
    ⊎ (HasNoSeparator pv × (prefix ≡ []))

cut_at :
    (c i : ℕ) (pv : Text) → rfind c pv ≡ some i → cut_of pv ≡ some i → IsCutAt c pv (kept_prefix pv)
cut_at c i pv last cut =
    let (head, rest, whole, front, none_behind) = rfind-some c pv i last in
    (head, rest, whole, kept_prefix-some pv i cut ∙ front, none_behind)

kept_prefix-IsKeptPrefix : (pv : Text) → IsKeptPrefix pv (kept_prefix pv)
kept_prefix-IsKeptPrefix pv = elim (Option-cases (rfind b'.' pv)) [
  | inr (i, e) ↦ inl (cut_at _ i pv e (unfold cut_of in rw e))
  | inl no_dot ↦ elim (Option-cases (rfind b'!' pv)) [
    | inr (i, e) ↦ inr (inl (no_dot, cut_at _ i pv e (unfold cut_of in rw (no_dot, e))))
    | inl no_bang ↦ elim (Option-cases (rfind b'/' pv)) [
      | inr (i, e) ↦
          inr (
            inr (inl (no_dot, no_bang, cut_at _ i pv e (unfold cut_of in rw (no_dot, no_bang, e)))))
      | inl no_slash ↦ inr (
          inr (
            inr (
              record { dot = no_dot; bang = no_bang; slash = no_slash },
              kept_prefix-none pv (unfold cut_of in rw (no_dot, no_bang, no_slash)),
            )))
    ]
  ]
]

module _ (ch : Chars) where
  -- A tag that was derived with a suffix that is not blank and holds no separator derives any further
  -- tag just as the PV tag it came from does.
  pub derive_tag-derive_tag :
      (pv_tag first second : Text)
      → is_blank ch first ≡ false
      → HasNoSeparator first
      → (derived : Text) × (derive_tag ch pv_tag first ≡ some derived)
        × (derive_tag ch derived second ≡ derive_tag ch pv_tag second)
  unfolding derive_tag
  derive_tag-derive_tag pv_tag first second filled n = (
    kept_prefix pv_tag ++ first,
    rw filled,
    ap (λ k. if is_blank ch second then none else some (k ++ second))
        (kept_prefix-append pv_tag first n),
  )

  -- With a blank suffix there is no tag; with any other, the tag is the suffix behind the prefix of the
  -- PV tag that is kept: up to its last `.`, or without a `.` up to its last `!`, or without either up
  -- to its last `/`, or nothing.
  pub derive_tag_cases :
      (pv_tag suffix : Text)
      → ((is_blank ch suffix ≡ true) × (derive_tag ch pv_tag suffix ≡ none))
        ⊎ ((is_blank ch suffix ≡ false)
            × ((prefix : Text) × IsKeptPrefix pv_tag prefix
                × (derive_tag ch pv_tag suffix ≡ some (prefix ++ suffix))))
  unfolding derive_tag
  derive_tag_cases pv_tag suffix = elim (Bool-cases (is_blank ch suffix)) [
    | inl blank ↦ inl (blank, rw blank)
    | inr filled ↦ inr (filled, (kept_prefix pv_tag, kept_prefix-IsKeptPrefix pv_tag, rw filled))
  ]
