-- ===== src/Auth/Escape.antt =====
-- What the program uses of package net/url: the escapes of queries, of path segments and of paths.
use byte_bucket.Prelude.{
  ℕ, ◌+◌, ◌-◌, ◌/◌, ◌%◌, Bool, ◌&&◌, ◌||◌, [], ◌∷◌, ◌++◌, ◌==◌, nat_equality, if◌then◌else◌, leb,
  ltb,
}
use byte_bucket.Bytes.{Bytes, bytes, has_byte}

-- The bytes that no escape touches.
unfoldable pub is_unreserved : ℕ → Bool
is_unreserved c =
    (leb b'a' c && leb c b'z')
    || ((leb b'A' c && leb c b'Z')
        || ((leb b'0' c && leb c b'9') || (c == b'-' || (c == b'_' || (c == b'.' || c == b'~')))))

upper_hex_digit : ℕ → ℕ
upper_hex_digit n = if ltb n 10 then b'0' + n else (b'A' + n) - 10

-- `%XY`
unfoldable pub percent : ℕ → Bytes
unfolding upper_hex_digit
percent c = b'%' ∷ upper_hex_digit (c / 16) ∷ upper_hex_digit (c % 16) ∷ []

-- `url.QueryEscape`
unfoldable pub query_escape : Bytes → Bytes
unfolding is_unreserved percent
query_escape [] = []
query_escape (c ∷ s) =
    (if is_unreserved c then c ∷ [] else if c == b' ' then b'+' ∷ [] else percent c)
    ++ query_escape s

-- The escape that keeps the bytes of `kept` beside the unreserved ones.
unfoldable pub escape_but : Bytes → Bytes → Bytes
unfolding is_unreserved percent has_byte
escape_but kept [] = []
escape_but kept (c ∷ s) =
    (if is_unreserved c || has_byte c kept then c ∷ [] else percent c) ++ escape_but kept s

-- `url.PathEscape`, which is for one segment
unfoldable pub path_escape : Bytes → Bytes
unfolding escape_but
path_escape s = escape_but (bytes "$&+:=@") s

-- `(*URL).EscapedPath` of a URL without a raw path
unfoldable pub escaped_path : Bytes → Bytes
unfolding escape_but
escaped_path path = escape_but (bytes "$&+,/:;=@") path
