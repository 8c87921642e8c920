-- ===== src/Kdl/Lexer/Raw.antt =====
-- `scanHashToken`: the keywords and the raw strings that begin with `#`.
use mathlib.Core.List.{reverse}
use scrape_kdl.Common.Text.{Bytes, codes, has_prefix}
use scrape_kdl.Common.{
  ℕ, zero, suc, ◌+◌, ◌-◌, Bool, true, false, not, ◌&&◌, [], ◌∷◌, take, drop, length, ◌==◌,
  if◌then◌else◌,
}
use scrape_kdl.Diagnostic.{plain}
use scrape_kdl.Kdl.Lexer.{Lexer, at_end, peek, skip, skip_n, slice, make_token, fail, is_boundary}
use scrape_kdl.Kdl.Token
use scrape_kdl.Kdl.Token.{Token, nil_value, text_value, bool_value}
use scrape_kdl.Source.{Position}

-- `strings.HasSuffix`.
unfoldable pub has_suffix : Bytes → Bytes → Bool
unfolding has_prefix
has_suffix s p = has_prefix (reverse s) (reverse p)

unfoldable pub drop_first_newline : Bytes → Bytes
unfolding has_prefix
drop_first_newline s =
    if has_prefix s (codes "\r\n")
    then drop 2 s
    else if has_prefix s (codes "\n")
    then drop 1 s
    else s

unfoldable pub drop_last_newline : Bytes → Bytes
unfolding has_suffix
drop_last_newline s =
    if has_suffix s (codes "\r\n")
    then take (length s - 2) s
    else if has_suffix s (codes "\n")
    then take (length s - 1) s
    else s

unfoldable pub normalize_raw_multiline : Bytes → Bytes
unfolding drop_first_newline drop_last_newline
normalize_raw_multiline s = drop_last_newline (drop_first_newline s)

-- The number of `#` that the text begins with.
unfoldable pub count_hashes : Bytes → ℕ
count_hashes [] = 0
count_hashes (c ∷ s) = let n = count_hashes s in if c == b'#' then n + 1 else 0

-- Whether the `n` bytes from `from` on are all `c`.
unfoldable pub all_peek : ℕ → Lexer → ℕ → ℕ → Bool
all_peek c l from zero = true
all_peek c l from (suc n) = peek l from == c && all_peek c l (from + 1) n

-- The closing quotes with as many `#` behind them as stand in front of the opening ones.
unfoldable pub closes : ℕ → ℕ → Lexer → Bool
unfolding all_peek
closes quotes hashes l = all_peek b'"' l 0 quotes && all_peek b'#' l quotes hashes

unfoldable pub raw_content : ℕ → Bytes → Bytes
unfolding normalize_raw_multiline
raw_content quotes s = if quotes == 3 then normalize_raw_multiline s else s

unfoldable pub unterminated_raw : Position → Lexer → Token × Lexer
unterminated_raw start l = fail (plain (codes "unterminated raw string")) [] start l

unfoldable pub close_raw : ℕ → ℕ → ℕ → Position → Lexer → Token × Lexer
close_raw quotes hashes begin start l =
    let m = skip_n (quotes + hashes) l in
    make_token Token.string (slice m start.offset) (text_value (raw_content quotes (slice l begin)))
      start m

unfoldable pub raw_loop : ℕ → ℕ → ℕ → ℕ → Position → Lexer → Token × Lexer
raw_loop zero quotes hashes begin start l = unterminated_raw start l
raw_loop (suc f) quotes hashes begin start l =
    let next_round = raw_loop f quotes hashes begin start (skip l) in
    if at_end l
    then unterminated_raw start l
    else if closes quotes hashes l
    then close_raw quotes hashes begin start l
    else next_round

-- A raw string, from its opening quotes on.
unfoldable pub scan_raw : ℕ → Position → Lexer → Token × Lexer
scan_raw hashes start l =
    let quotes : ℕ = if all_peek b'"' l 0 3 then 3 else 1 in
    let body = skip_n quotes l in raw_loop (length body.rest) quotes hashes body.offset start body

unfoldable pub scan_hash_token : Position → Lexer → Token × Lexer
scan_hash_token start l =
    let hashes = count_hashes l.rest in
    if has_prefix l.rest (codes "#true") && is_boundary (peek l 5)
    then make_token Token.bool (codes "#true") (bool_value true) start (skip_n 5 l)
    else if has_prefix l.rest (codes "#false") && is_boundary (peek l 6)
    then make_token Token.bool (codes "#false") (bool_value false) start (skip_n 6 l)
    else if has_prefix l.rest (codes "#null") && is_boundary (peek l 5)
    then make_token Token.null (codes "#null") nil_value start (skip_n 5 l)
    else if not (peek l hashes == b'"')
    then fail (plain (codes "invalid hash-prefixed token")) [] start (skip l)
    else scan_raw hashes start (skip_n hashes l)
