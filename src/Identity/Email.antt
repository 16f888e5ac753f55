-- ===== src/Identity/Email.antt =====
-- The address check of backend/identity/service.go, `emailPattern`, on the bytes of the text.
use motivra.Prelude.{
  ℕ, Bool, true, false, ◌&&◌, ◌||◌, List, [], ◌∷◌, leb, ltb, ◌==◌, length, if◌then◌else◌,
}
use motivra.Prelude.Text.{Text}
use motivra.Prelude.Strings.{split}

abbrev pub is_letter : ℕ → Bool
is_letter c = leb b'a' c && leb c b'z' || (leb b'A' c && leb c b'Z')

abbrev pub is_domain_char : ℕ → Bool
is_domain_char c = is_letter c || (leb b'0' c && leb c b'9' || (c == b'.' || c == b'-'))

abbrev pub is_local_char : ℕ → Bool
is_local_char c = is_domain_char c || (c == b'_' || (c == b'%' || c == b'+'))

unfoldable pub all_chars : (ℕ → Bool) → Text → Bool
all_chars test [] = true
all_chars test (c ∷ s) = let rest = all_chars test s in if test c then rest else false

-- `[a-zA-Z]{2,}`
abbrev pub is_top_level : Text → Bool
is_top_level s = ltb 1 (length s) && all_chars is_letter s

-- A dot with something before it, and a top level after it that is the rest.
unfoldable pub has_top_level : Bool → Text → Bool
unfolding all_chars
has_top_level something [] = false
has_top_level something (c ∷ s) =
    let later = has_top_level true s in
    if something && (c == b'.' && is_top_level s) then true else later

abbrev pub is_domain : Text → Bool
is_domain s = all_chars is_domain_char s && has_top_level false s

-- The two sides of the one '@'.
unfoldable pub matches_sides : List Text → Bool
unfolding all_chars has_top_level
matches_sides (l ∷ d ∷ []) = ltb 0 (length l) && (all_chars is_local_char l && is_domain d)
matches_sides _ = false

unfoldable pub matches_email : Text → Bool
unfolding split matches_sides
matches_email s = matches_sides (split b'@' s)

abbrev pub max_email_length : ℕ
max_email_length = 254

abbrev pub is_email : Text → Bool
is_email s = matches_email s && leb (length s) max_email_length
