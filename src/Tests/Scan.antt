-- ===== src/Tests/Scan.antt =====
-- Runs of the scanner.
use kolang.Prelude.{List, [], ◌∷◌, Option, none, some, codes, ◌≡◌, refl}
use kolang.Token.{Token, TokenType, ident, newline, indent, dedent, eof, int}
use kolang.Lexer.Strconv.{Strconv}
use kolang.Lexer.Indent.{emit_indents, top}
use kolang.Lexer.Run.{lex, initial}
use kolang.Lexer.Nesting.Whole.{lex-Finished, Finished, initial-IsNested}
use kolang.Lexer.Nesting.Blocks.{IsNested, emit_indents_lem}

-- Floating point that keeps the text, and quoting that adds nothing.
abbrev plain : Strconv
plain = record { format_float = λ s. some s; quote = λ s. s }

abbrev kinds : List Token → List TokenType
kinds [] = []
kinds (t ∷ ts) = t.type ∷ kinds ts

abbrev kinds_of : Option (List Token) → List TokenType
kinds_of none = []
kinds_of (some ts) = kinds ts

block :
    kinds_of (lex plain (codes "a\n  b\nc 0x1F"))
    ≡ ident ∷ newline ∷ indent ∷ ident ∷ newline ∷ dedent ∷ ident ∷ int ∷ eof ∷ []
unfolding lex
block = refl

lex-Finished_example : (ts : List Token) × (lex plain (codes "a\n  b\nc") ≡ some ts) × Finished ts
lex-Finished_example = lex-Finished plain (codes "a\n  b\nc")

emit_indents_example :
    (top (emit_indents 4 (initial (codes "x"))).indents ≡ 4)
    × IsNested (emit_indents 4 (initial (codes "x")))
emit_indents_example = emit_indents_lem 4 (initial (codes "x")) (initial-IsNested (codes "x"))
