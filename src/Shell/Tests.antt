-- ===== src/Shell/Tests.antt =====
-- Runs on the inputs of the source's own tests, and the theorems at concrete texts.
use dtu.Prelude.{◌≡◌, refl, none, some, [], ◌∷◌, ◌++◌, codes}
use dtu.Shell.{quote, split}
use dtu.Shell.Quoting.{read_word, unquoted, read_word-quote}

quote_runs : quote (codes "with'tick") ≡ codes "'with'\"'\"'tick'"
unfolding quote
quote_runs = refl

split_runs :
    split (codes "'quoted split\\' with escapes' and \"double quotes\" \\\\")
    ≡ some
        (codes "quoted split' with escapes" ∷ codes "and" ∷ codes "double quotes" ∷ codes "\\" ∷ [])
unfolding split
split_runs = refl

split_unclosed : split (codes "a 'b") ≡ none
unfolding split
split_unclosed = refl

read_word-quote_example :
    read_word unquoted (quote (codes "it's $x") ++ codes " -type d")
    ≡ some (codes "it's $x", codes " -type d")
read_word-quote_example = read_word-quote (codes "it's $x") (codes " -type d") refl
