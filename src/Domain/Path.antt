-- ===== src/Domain/Path.antt =====
-- `IsAbsolutePath` of core/internal/domain/share.go, over `path.Clean` of the standard library:
-- empty and "." elements are dropped, an inner ".." takes the element before it away, and a ".."
-- that begins a rooted path is dropped.
use dav_deck.Common.{
  ℕ, Bool, true, false, not, ◌&&◌, ◌||◌, List, [], ◌∷◌, map, ◌==◌, leb, any, if◌then◌else◌,
}
use mathlib.Core.List.{reverse}
use dav_deck.Common.Text.{Text, text_eq, is_empty, has_prefix, split, join}
use dav_deck.Domain.Validation.{contains_control}

abbrev pub dot : Text
dot = b'.' ∷ []

abbrev pub dot_dot : Text
dot_dot = b'.' ∷ b'.' ∷ []

-- What ".." does to the elements kept so far, the last of them first.
unfoldable pub clean_up : Bool → List Text → List Text
clean_up true [] = []
clean_up false [] = dot_dot ∷ []
clean_up rooted (k ∷ kept) = if text_eq k dot_dot then dot_dot ∷ k ∷ kept else kept

unfoldable pub clean_step : Bool → List Text → Text → List Text
unfolding clean_up
clean_step rooted kept part =
    if is_empty part || text_eq part dot
    then kept
    else if text_eq part dot_dot
    then clean_up rooted kept
    else part ∷ kept

unfoldable pub clean_from : Bool → List Text → List Text → List Text
unfolding clean_step
clean_from rooted kept [] = reverse kept
clean_from rooted kept (part ∷ parts) = clean_from rooted (clean_step rooted kept part) parts

abbrev pub or_dot : List Text → Text
or_dot [] = dot
or_dot (p ∷ ps) = join (p ∷ ps) b'/'

-- `path.Clean`
unfoldable pub clean : Text → Text
unfolding clean_from split join has_prefix text_eq
clean path =
    if has_prefix path (b'/' ∷ [])
    then b'/' ∷ join (clean_from true [] (split path b'/')) b'/'
    else or_dot (clean_from false [] (split path b'/'))

unfoldable pub is_ascii_letter : ℕ → Bool
is_ascii_letter value = (leb b'A' value && leb value b'Z') || (leb b'a' value && leb value b'z')

-- `strings.ReplaceAll(value, "\\", "/")`
unfoldable pub replace_backslashes : Text → Text
replace_backslashes value = map (λ c. if c == 0x5c then b'/' else c) value

-- The drive-letter form. Its first three bytes are ASCII, so they are its first three code points,
-- and a text with fewer code points fails the byte tests.
unfoldable pub is_drive_path : Text → Bool
unfolding is_ascii_letter replace_backslashes clean text_eq
is_drive_path (drive ∷ colon ∷ slash ∷ rest) =
    let value = drive ∷ colon ∷ slash ∷ rest in
    let normalized = replace_backslashes value in
    is_ascii_letter drive
    && colon == b':'
    && (slash == 0x5c || slash == b'/')
    && not (any (λ c. c == 0x5c) (slash ∷ rest) && any (λ c. c == b'/') (slash ∷ rest))
    && (is_empty rest || text_eq (clean normalized) normalized)
is_drive_path value = false

unfoldable pub is_absolute_path : Text → Bool
unfolding contains_control clean text_eq is_drive_path has_prefix
is_absolute_path value =
    if is_empty value || contains_control value
    then false
    else if has_prefix value (b'/' ∷ [])
    then text_eq (clean value) value
    else is_drive_path value
