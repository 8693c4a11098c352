-- ===== src/Naming.antt =====
-- internal/naming/queue.go: which queue names a user may write. The source walks the runes of the
-- name; a byte above 127 belongs to a rune above 127, or to an invalid encoding, which is read as
-- U+FFFD, and both are refused, so that walking the bytes gives the same answer.
pub mod Laws
use shoebox.Base.{
  Bool, true, false, not, ◌&&◌, ◌||◌, List, [], ◌∷◌, ℕ, ltb, ◌==◌, if◌then◌else◌, length,
}
use shoebox.Base.Text.{Str, bytes, has_suffix}

-- The condition under which the loop goes on.
unfoldable pub is_name_byte : ℕ → Bool
is_name_byte r = not (
    (ltb r b'a' || ltb b'z' r)
    && (ltb r b'A' || ltb b'Z' r)
    && (ltb r b'0' || ltb b'9' r)
    && not (r == b'.')
    && not (r == b'-')
    && not (r == b'_'))

unfoldable pub all_name_bytes : Str → Bool
unfolding is_name_byte
all_name_bytes [] = true
all_name_bytes (r ∷ name) = let rest = all_name_bytes name in if is_name_byte r then rest else false

unfoldable pub valid_queue_name : Str → Bool
unfolding all_name_bytes has_suffix
valid_queue_name name =
    if length name == 0 || ltb 128 (length name) || has_suffix name (bytes ".dlq")
    then false
    else all_name_bytes name
