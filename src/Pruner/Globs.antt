-- ===== src/Pruner/Globs.antt =====
-- What a rule of what to keep says of a tag, GlobMatches of pkg/common/string.go.
use Prim.Native.Char.{Char}
use Prim.Native.String.append
use Prim.Native.String.{len, slice, ◌++◌ as ◌<>◌}
use text.Mathlib.Text.{starts_with}
use text.Mathlib.TextEquality.{starts_with_iff}
use text.Mathlib.TextLemmas.{append_assoc}
use text.Mathlib.TextPositions.{
  len-append, slice-append_left, slice-append_middle, slice-append_right, starts_with-append,
}
use maelstrom.Prelude.{
  ◌-◌, ◌≡◌, ◌⊎◌, inl, inr, refl, sym, ap, ◌∙◌, String, true, ◌=s=◌, name_iff, Bool-cases, arith,
}
use maelstrom.Pruner.{ends_with, contains, glob_matches}

-- A rule names every tag, or the tag itself, or how it begins, or how it ends, or a part of it.
pub data Names (rule tag : String) : Type 0 where
  all : rule ≡ "*" → Names rule tag
  itself : rule ≡ tag → Names rule tag
  beginning : (stem more : String) → rule ≡ stem <> "*" → tag ≡ stem <> more → Names rule tag
  ending : (more stem : String) → rule ≡ "*" <> stem → tag ≡ more <> stem → Names rule tag
  part :
      (before stem after : String)
      → rule ≡ "*" <> (stem <> "*")
      → tag ≡ before <> (stem <> after)
      → Names rule tag

ends_with-itself : (s : String) → ends_with s s ≡ true
unfolding ends_with
ends_with-itself String.[] = (name_iff "" "").1 refl
ends_with-itself (String.◌∷◌ c s) =
    ground (arith, (name_iff (String.◌∷◌ c s) (String.◌∷◌ c s)).1 refl)

ends_with-append : (s t : String) → ends_with (s <> t) t ≡ true
unfolding ends_with
ends_with-append String.[] t = ap (λ u. ends_with u t) (append.nil t) ∙ ends_with-itself t
ends_with-append (String.◌∷◌ c s) t =
    ap (λ u. ends_with u t) (append.cons c s t) ∙ ground (arith, ends_with-append s t)

ends_with-split : (s t : String) → ends_with s t ≡ true → (u : String) × (s ≡ u <> t)
unfolding ends_with
ends_with-split String.[] t e = ("", (name_iff "" t).0 e ∙ sym (append.nil t))
ends_with-split (String.◌∷◌ c s) t e = elim (Bool-cases (String.◌∷◌ c s =s= t)) [
  | inl x ↦ ("", (name_iff (String.◌∷◌ c s) t).0 x ∙ sym (append.nil t))
  | inr x ↦
      let (u, split) = ends_with-split s t (ground (arith, x, e)) in
      (String.◌∷◌ c u, ap (String.◌∷◌ c) split ∙ sym (append.cons c u t))
]

contains-beginning : (s t : String) → starts_with s t ≡ true → contains s t ≡ true
unfolding contains
contains-beginning String.[] t e = e
contains-beginning (String.◌∷◌ c s) t e = ground (arith, e)

contains-append : (s t u : String) → contains (s <> (t <> u)) t ≡ true
unfolding contains
contains-append String.[] t u =
    ap (λ w. contains w t) (append.nil (t <> u))
    ∙ contains-beginning (t <> u) t (starts_with-append t u)
contains-append (String.◌∷◌ c s) t u =
    ap (λ w. contains w t) (append.cons c s (t <> u)) ∙ ground (arith, contains-append s t u)

tail : String → String
tail String.[] = ""
tail (String.◌∷◌ c s) = s

tail_star : (s : String) → tail ("*" <> s) ≡ s
unfolding tail
tail_star s = ap tail (append.cons "*" "" s) ∙ append.nil s

-- A text that begins and ends with a star is one star, or has a stem between two.
stars_begin :
    (t s : String)
    → "*" <> s ≡ t <> "*"
    → ("*" <> s ≡ "*")
      ⊎ ((c : Char) × (stem : String) × (s ≡ stem <> "*") × (t ≡ String.◌∷◌ c stem))
unfolding tail
stars_begin String.[] s e = inl (e ∙ append.nil "*")
stars_begin (String.◌∷◌ c t) s e =
    inr (c, t, sym (tail_star s) ∙ ap tail e ∙ ap tail (append.cons c t "*"), refl)

module _ (rule tag : String) where
  glob_matches-all : rule ≡ "*" → glob_matches rule tag ≡ true
  unfolding glob_matches
  glob_matches-all e = ground (arith, (name_iff rule "*").1 e)

  glob_matches-itself : rule ≡ tag → glob_matches rule tag ≡ true
  unfolding glob_matches
  glob_matches-itself e = ground (arith, (name_iff rule tag).1 e)

  begins_star : (s : String) → rule ≡ "*" <> s → starts_with rule "*" ≡ true
  begins_star s e = ap (λ r. starts_with r "*") e ∙ starts_with-append "*" s

  ends_star : (s : String) → rule ≡ s <> "*" → ends_with rule "*" ≡ true
  ends_star s e = ap (λ r. ends_with r "*") e ∙ ends_with-append s "*"

  between : (stem : String) → rule ≡ "*" <> (stem <> "*") → slice rule 1 (len rule - 1) ≡ stem
  between stem e =
      ap (λ r. slice r 1 (len r - 1)) e
      ∙ ap (slice ("*" <> (stem <> "*")) 1)
          (omega (arith, len-append "*" (stem <> "*"), len-append stem "*"))
      ∙ slice-append_middle "*" stem "*"

  glob_matches-part :
      (before stem after : String)
      → rule ≡ "*" <> (stem <> "*")
      → tag ≡ before <> (stem <> after)
      → glob_matches rule tag ≡ true
  unfolding glob_matches
  glob_matches-part before stem after e f =
      let held : contains tag (slice rule 1 (len rule - 1)) ≡ true =
        ap (contains tag) (between stem e)
        ∙ ap (λ t. contains t stem) f
        ∙ contains-append before stem after in
      ground (
        arith,
        begins_star (stem <> "*") e,
        ends_star ("*" <> stem) (e ∙ sym (append_assoc "*" stem "*")),
        held,
      )

  glob_matches-beginning :
      (stem more : String) → rule ≡ stem <> "*" → tag ≡ stem <> more → glob_matches rule tag ≡ true
  unfolding glob_matches
  glob_matches-beginning stem more e f = elim (Bool-cases (starts_with rule "*")) [
    | inr x ↦
        let before : slice rule 0 (len rule - 1) ≡ stem =
          ap (λ r. slice r 0 (len r - 1)) e
          ∙ ap (slice (stem <> "*") 0) (omega (arith, len-append stem "*"))
          ∙ slice-append_left stem "*" in
        let held : starts_with tag (slice rule 0 (len rule - 1)) ≡ true =
          ap (starts_with tag) before
          ∙ ap (λ t. starts_with t stem) f
          ∙ starts_with-append stem more in
        ground (arith, x, ends_star stem e, held)
    | inl x ↦
        let (after, begun) = (starts_with_iff rule "*").0 x in
        elim (stars_begin stem after (begun ∙ e)) [
          | inl one ↦ glob_matches-all (sym begun ∙ one)
          | inr (c, inner, split, whole) ↦
              glob_matches-part (String.◌∷◌ c "") inner more (sym begun ∙ ap (λ s. "*" <> s) split)
                (f
                  ∙ ap (λ s. s <> more) whole
                  ∙ append.cons c inner more
                  ∙ sym (
                      append.cons c "" (inner <> more)
                      ∙ ap (String.◌∷◌ c) (append.nil (inner <> more))))
        ]
  ]

  glob_matches-ending :
      (more stem : String) → rule ≡ "*" <> stem → tag ≡ more <> stem → glob_matches rule tag ≡ true
  unfolding glob_matches
  glob_matches-ending more stem e f = elim (Bool-cases (ends_with rule "*")) [
    | inr x ↦
        let after : slice rule 1 (len rule) ≡ stem =
          ap (λ r. slice r 1 (len r)) e
          ∙ ap (slice ("*" <> stem) 1) (len-append "*" stem)
          ∙ slice-append_right "*" stem in
        let held : ends_with tag (slice rule 1 (len rule)) ≡ true =
          ap (ends_with tag) after ∙ ap (λ t. ends_with t stem) f ∙ ends_with-append more stem in
        ground (arith, x, begins_star stem e, held)
    | inl x ↦
        let (start, split) = ends_with-split rule "*" x in
        elim (stars_begin start stem (sym e ∙ split)) [
          | inl one ↦ glob_matches-all (e ∙ one)
          | inr (c, inner, rest, whole) ↦
              glob_matches-part more inner "*" (e ∙ ap (λ s. "*" <> s) rest)
                (f ∙ ap (λ s. more <> s) rest)
        ]
  ]

-- What a rule names GlobMatches finds.
pub Names-glob_matches : (rule tag : String) → Names rule tag → glob_matches rule tag ≡ true
Names-glob_matches rule tag (Names.all e) = glob_matches-all rule tag e
Names-glob_matches rule tag (Names.itself e) = glob_matches-itself rule tag e
Names-glob_matches rule tag (Names.beginning stem more e f) =
    glob_matches-beginning rule tag stem more e f
Names-glob_matches rule tag (Names.ending more stem e f) =
    glob_matches-ending rule tag more stem e f
Names-glob_matches rule tag (Names.part before stem after e f) =
    glob_matches-part rule tag before stem after e f
