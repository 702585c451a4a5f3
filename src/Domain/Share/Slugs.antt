-- ===== src/Domain/Share/Slugs.antt =====
-- The slug pattern of core/internal/domain/share.go and the parts of a slug.
use dav_deck.Common.{
  ◌≡◌, refl, sym, ℕ, Bool, true, false, Bool-cases, inl, inr, not, ◌&&◌, ◌==◌, [], ◌∷◌, ◌++◌, all,
  arith,
}
use dav_deck.Common.Text.{Text, is_empty, split, split_from}
use dav_deck.Domain.Share.{is_slug_char, slug_from, matches_share_slug}

-- A part between hyphens: not empty, of letters and digits.
abbrev pub is_slug_part : Text → Bool
is_slug_part part = not (is_empty part) && all is_slug_char part

is_empty-snoc : (s : Text) (c : ℕ) → is_empty (s ++ c ∷ []) ≡ false
is_empty-snoc [] c = refl
is_empty-snoc (x ∷ s) c = refl

all-snoc : (p : ℕ → Bool) (s : Text) (c : ℕ) → all p (s ++ c ∷ []) ≡ (all p s && p c)
all-snoc p [] c = ground arith
all-snoc p (x ∷ s) c = rw (all-snoc p s c) (ground arith)

hyphen_is_no_slug_char : (c : ℕ) → c == b'-' ≡ true → is_slug_char c ≡ false
unfolding is_slug_char
hyphen_is_no_slug_char c h = ground arith

parts_of :
    (cur s : Text)
    → all is_slug_part (split_from b'-' cur s)
      ≡ (all is_slug_char cur && slug_from (not (is_empty cur)) s)
unfolding split_from slug_from
parts_of [] [] = refl
parts_of (x ∷ cur) [] = ground arith
parts_of cur (c ∷ s) = elim (Bool-cases (c == b'-')) [
  | inl h ↦ rw (h, hyphen_is_no_slug_char c h, parts_of [] s) (ground arith)
  | inr h ↦
      rw (h, parts_of (cur ++ c ∷ []) s, is_empty-snoc cur c, all-snoc is_slug_char cur c)
        (ground arith)
]

-- A slug is accepted exactly where every part of it between hyphens is a non-empty sequence of
-- lower-case letters and digits.
pub matches_share_slug_parts :
    (slug : Text) → matches_share_slug slug ≡ all is_slug_part (split slug b'-')
unfolding matches_share_slug split
matches_share_slug_parts slug = sym (parts_of [] slug)
