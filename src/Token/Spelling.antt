-- ===== src/Token/Spelling.antt =====
-- internal/token/token.go: the string that is the value of each constant of type `Type`. The code points
-- stand for the Persian letters. Two types are compared by these strings.
use kolang.Prelude.{Bool, [], ◌∷◌, Text, text_eq}
use kolang.Token.{
  TokenType, illegal, eof, newline, indent, dedent, ident, int, float, string, assign, plus, minus,
  star, div, floordiv, percent, pow, plus_eq, minus_eq, star_eq, div_eq, floordiv_eq, pow_eq,
  percent_eq, equal, less, greater, less_equal, greater_equal, send, recv, arrow, pipe, ezafe,
  lparen, rparen, lbracket, rbracket, lbrace, rbrace, colon, def, return, if_kw, else_kw, while,
  for, in_kw, from_kw, to_kw, step_kw, break, continue, print, input, pass, import, append, remove,
  raise, true_kw, false_kw, none_kw, self, super, as_kw, with, sep, and_kw, or_kw, beh, cop_pos,
  cop_neg, go, channel, close, closed, global, nonlocal, class, interf, try, finally, defer, yield,
  yieldfrom, decor, implements, extends,
}

unfoldable pub spelling : TokenType → Text
spelling illegal = 0x49 ∷ 0x4C ∷ 0x4C ∷ 0x45 ∷ 0x47 ∷ 0x41 ∷ 0x4C ∷ []
spelling eof = 0x45 ∷ 0x4F ∷ 0x46 ∷ []
spelling newline = 0x4E ∷ 0x45 ∷ 0x57 ∷ 0x4C ∷ 0x49 ∷ 0x4E ∷ 0x45 ∷ []
spelling indent = 0x49 ∷ 0x4E ∷ 0x44 ∷ 0x45 ∷ 0x4E ∷ 0x54 ∷ []
spelling dedent = 0x44 ∷ 0x45 ∷ 0x44 ∷ 0x45 ∷ 0x4E ∷ 0x54 ∷ []
spelling ident = 0x49 ∷ 0x44 ∷ 0x45 ∷ 0x4E ∷ 0x54 ∷ []
spelling int = 0x49 ∷ 0x4E ∷ 0x54 ∷ []
spelling float = 0x46 ∷ 0x4C ∷ 0x4F ∷ 0x41 ∷ 0x54 ∷ []
spelling string = 0x53 ∷ 0x54 ∷ 0x52 ∷ 0x49 ∷ 0x4E ∷ 0x47 ∷ []
spelling assign = 0x3D ∷ []
spelling plus = 0x2B ∷ []
spelling minus = 0x2D ∷ []
spelling star = 0xD7 ∷ []
spelling div = 0xF7 ∷ []
spelling floordiv = 0xF7 ∷ 0x2F ∷ []
spelling percent = 0x25 ∷ []
spelling pow = 0x2A ∷ []
spelling plus_eq = 0x2B ∷ 0x3D ∷ []
spelling minus_eq = 0x2D ∷ 0x3D ∷ []
spelling star_eq = 0xD7 ∷ 0x3D ∷ []
spelling div_eq = 0xF7 ∷ 0x3D ∷ []
spelling floordiv_eq = 0xF7 ∷ 0x2F ∷ 0x3D ∷ []
spelling pow_eq = 0x2A ∷ 0x3D ∷ []
spelling percent_eq = 0x25 ∷ 0x3D ∷ []
spelling equal = 0x3D ∷ 0x3D ∷ []
spelling less = 0x3C ∷ []
spelling greater = 0x3E ∷ []
spelling less_equal = 0x3C ∷ 0x3D ∷ []
spelling greater_equal = 0x3E ∷ 0x3D ∷ []
spelling send = 0x3C ∷ 0x3C ∷ []
spelling recv = 0x3E ∷ 0x3E ∷ []
spelling arrow = 0x2D ∷ 0x3E ∷ []
spelling pipe = 0x7C ∷ 0x3E ∷ []
spelling ezafe = 0x45 ∷ 0x5A ∷ 0x41 ∷ 0x46 ∷ 0x45 ∷ []
spelling lparen = 0x28 ∷ []
spelling rparen = 0x29 ∷ []
spelling lbracket = 0x5B ∷ []
spelling rbracket = 0x5D ∷ []
spelling lbrace = 0x7B ∷ []
spelling rbrace = 0x7D ∷ []
spelling colon = 0x3A ∷ []
spelling def = 0x62A ∷ 0x639 ∷ 0x631 ∷ 0x6CC ∷ 0x641 ∷ []
spelling return = 0x628 ∷ 0x631 ∷ 0x6AF ∷ 0x631 ∷ 0x62F ∷ 0x627 ∷ 0x646 ∷ []
spelling if_kw = 0x627 ∷ 0x6AF ∷ 0x631 ∷ []
spelling else_kw = 0x648 ∷ 0x6AF ∷ 0x631 ∷ 0x646 ∷ 0x647 ∷ []
spelling while = 0x62A ∷ 0x627 ∷ 0x648 ∷ 0x642 ∷ 0x62A ∷ 0x6CC ∷ []
spelling for = 0x628 ∷ 0x631 ∷ 0x627 ∷ 0x6CC ∷ []
spelling in_kw = 0x62F ∷ 0x631 ∷ []
spelling from_kw = 0x627 ∷ 0x632 ∷ []
spelling to_kw = 0x62A ∷ 0x627 ∷ []
spelling step_kw = 0x6AF ∷ 0x627 ∷ 0x645 ∷ []
spelling break = 0x627 ∷ 0x62A ∷ 0x645 ∷ 0x627 ∷ 0x645 ∷ []
spelling continue = 0x628 ∷ 0x631 ∷ 0x648 ∷ 0x628 ∷ 0x639 ∷ 0x62F ∷ 0x6CC ∷ []
spelling print = 0x628 ∷ 0x646 ∷ 0x648 ∷ 0x6CC ∷ 0x633 ∷ []
spelling input = 0x628 ∷ 0x6AF ∷ 0x6CC ∷ 0x631 ∷ []
spelling pass = 0x645 ∷ 0x62B ∷ 0x644 ∷ []
spelling import = 0x628 ∷ 0x6CC ∷ 0x627 ∷ 0x631 ∷ []
spelling append = 0x628 ∷ 0x6CC ∷ 0x627 ∷ 0x641 ∷ 0x632 ∷ 0x627 ∷ []
spelling remove = 0x62D ∷ 0x630 ∷ 0x641 ∷ 0x6A9 ∷ 0x646 ∷ []
spelling raise = 0x628 ∷ 0x62F ∷ 0x647 ∷ []
spelling true_kw = 0x62F ∷ 0x631 ∷ 0x633 ∷ 0x62A ∷ []
spelling false_kw = 0x63A ∷ 0x644 ∷ 0x637 ∷ []
spelling none_kw = 0x62A ∷ 0x647 ∷ 0x6CC ∷ []
spelling self = 0x62E ∷ 0x648 ∷ 0x62F ∷ []
spelling super = 0x648 ∷ 0x627 ∷ 0x644 ∷ 0x62F ∷ []
spelling as_kw = 0x628 ∷ 0x627 ∷ 0x646 ∷ 0x627 ∷ 0x645 ∷ []
spelling with = 0x628 ∷ 0x627 ∷ []
spelling sep = 0x648 ∷ []
spelling and_kw = 0x647 ∷ 0x645 ∷ 0x686 ∷ 0x646 ∷ 0x6CC ∷ 0x646 ∷ []
spelling or_kw = 0x6CC ∷ 0x627 ∷ []
spelling beh = 0x628 ∷ 0x647 ∷ []
spelling cop_pos = 0x628 ∷ 0x627 ∷ 0x634 ∷ 0x62F ∷ []
spelling cop_neg = 0x646 ∷ 0x628 ∷ 0x627 ∷ 0x634 ∷ 0x62F ∷ []
spelling go = 0x628 ∷ 0x631 ∷ 0x648 ∷ []
spelling channel = 0x6A9 ∷ 0x627 ∷ 0x646 ∷ 0x627 ∷ 0x644 ∷ []
spelling close = 0x628 ∷ 0x628 ∷ 0x646 ∷ 0x62F ∷ []
spelling closed = 0x628 ∷ 0x633 ∷ 0x62A ∷ 0x647 ∷ 0x200C ∷ 0x627 ∷ 0x633 ∷ 0x62A ∷ []
spelling global = 0x62C ∷ 0x647 ∷ 0x627 ∷ 0x646 ∷ 0x6CC ∷ []
spelling nonlocal = 0x646 ∷ 0x627 ∷ 0x645 ∷ 0x62D ∷ 0x644 ∷ 0x6CC ∷ []
spelling class = 0x6AF ∷ 0x648 ∷ 0x646 ∷ 0x647 ∷ []
spelling interf = 0x631 ∷ 0x627 ∷ 0x628 ∷ 0x637 ∷ []
spelling try = 0x628 ∷ 0x67E ∷ 0x627 ∷ []
spelling finally = 0x62F ∷ 0x631 ∷ 0x646 ∷ 0x647 ∷ 0x627 ∷ 0x6CC ∷ 0x62A ∷ []
spelling defer = 0x62A ∷ 0x623 ∷ 0x62E ∷ 0x6CC ∷ 0x631 ∷ 0x6CC ∷ []
spelling yield = 0x628 ∷ 0x633 ∷ 0x627 ∷ 0x632 ∷ []
spelling yieldfrom = 0x628 ∷ 0x633 ∷ 0x627 ∷ 0x632 ∷ 0x200C ∷ 0x627 ∷ 0x632 ∷ []
spelling decor = 0x67E ∷ 0x648 ∷ 0x634 ∷ 0x634 ∷ []
spelling implements = 0x631 ∷ 0x647 ∷ 0x6CC ∷ []
spelling extends = 0x648 ∷ 0x627 ∷ 0x631 ∷ 0x62B ∷ []

-- `a == b`, of types.
unfoldable pub same_type : TokenType → TokenType → Bool
unfolding spelling text_eq
same_type a b = text_eq (spelling a) (spelling b)
