-- ===== src/Kdl/Parser/Runs.antt =====
-- Runs of the parser that end, and the tokens that are not the end of the file.
use scrape_kdl.Common.{true, false, ◌||◌, ◌≡◌, refl, Option, none, some}
use scrape_kdl.Kdl.Parser.Entries.{then_run}
use scrape_kdl.Kdl.Parser.{is_eof, is_separator, is_rbrace, is_lparen, is_name, ends_node}
use scrape_kdl.Kdl.Token
use scrape_kdl.Kdl.Token.{TokenKind, Token}

-- A run that ends, and ends with `P`.
abbrev pub Ends {ℓ} : {A : Type ℓ} → (A → Type 0) → Option A → Type 0
Ends P none = ⊥
Ends P (some a) = P a

pub then_run-Ends {ℓ κ} :
    {A : Type ℓ} {B : Type κ} (P : A → Type 0) (Q : B → Type 0) (m : Option A) (f : A → Option B)
    → Ends P m
    → ((a : A) → P a → Ends Q (f a))
    → Ends Q (then_run m f)
then_run-Ends P Q none f h k = absurd h
then_run-Ends P Q (some a) f h k = k a h

pub lparen-real : (k : TokenKind) → is_lparen k ≡ true → is_eof k ≡ false
lparen-real Token.lparen h = refl
lparen-real Token.eof h = cc
lparen-real _ h = refl

pub name-real : (k : TokenKind) → is_name k ≡ true → is_eof k ≡ false
name-real Token.eof h = cc
name-real _ h = refl

pub separator-real : (k : TokenKind) → is_separator k ≡ true → is_eof k ≡ false
separator-real Token.eof h = cc
separator-real _ h = refl

pub inside-real :
    (k : TokenKind)
    → (is_eof k || is_rbrace k) ≡ false
    → is_separator k ≡ false
    → ends_node k ≡ false
inside-real Token.eof h s = cc
inside-real Token.rbrace h s = cc
inside-real Token.newline h s = cc
inside-real Token.semicolon h s = cc
inside-real _ h s = refl

pub Ends-value {ℓ} :
    {A : Type ℓ} (P : A → Type 0) (m : Option A) → Ends P m → (a : A) × (m ≡ some a) × P a
Ends-value P none h = absurd h
Ends-value P (some a) h = (a, refl, h)
