-- ===== src/Token/Keywords.antt =====
-- internal/token/token.go: the map `Keywords`.
use kolang.Prelude.{List, [], ◌∷◌, Text}
use kolang.Token.{
  TokenType, def, return, if_kw, else_kw, while, for, from_kw, to_kw, step_kw, break, continue,
  print, input, pass, import, append, remove, raise, true_kw, false_kw, none_kw, self, super, as_kw,
  with, sep, beh, and_kw, or_kw, cop_pos, cop_neg, try, finally, defer, yield, yieldfrom, decor,
  implements, extends, go, channel, close, closed, global, nonlocal, class, interf, in_kw,
}

-- A spelling and its kind, row by row as in the source. The code points stand for the Persian letters.
abbrev pub keywords : List (Text × TokenType)
keywords =
    (0x62A ∷ 0x639 ∷ 0x631 ∷ 0x6CC ∷ 0x641 ∷ [], def)
    ∷ (0x628 ∷ 0x631 ∷ 0x6AF ∷ 0x631 ∷ 0x62F ∷ 0x627 ∷ 0x646 ∷ [], return)
    ∷ (0x627 ∷ 0x6AF ∷ 0x631 ∷ [], if_kw)
    ∷ (0x648 ∷ 0x6AF ∷ 0x631 ∷ 0x646 ∷ 0x647 ∷ [], else_kw)
    ∷ (0x62A ∷ 0x627 ∷ 0x648 ∷ 0x642 ∷ 0x62A ∷ 0x6CC ∷ [], while)
    ∷ (0x628 ∷ 0x631 ∷ 0x627 ∷ 0x6CC ∷ [], for)
    ∷ (0x627 ∷ 0x632 ∷ [], from_kw)
    ∷ (0x62A ∷ 0x627 ∷ [], to_kw)
    ∷ (0x6AF ∷ 0x627 ∷ 0x645 ∷ [], step_kw)
    ∷ (0x627 ∷ 0x62A ∷ 0x645 ∷ 0x627 ∷ 0x645 ∷ [], break)
    ∷ (0x628 ∷ 0x631 ∷ 0x648 ∷ 0x628 ∷ 0x639 ∷ 0x62F ∷ 0x6CC ∷ [], continue)
    ∷ (0x628 ∷ 0x646 ∷ 0x648 ∷ 0x6CC ∷ 0x633 ∷ [], print)
    ∷ (0x628 ∷ 0x6AF ∷ 0x6CC ∷ 0x631 ∷ [], input)
    ∷ (0x645 ∷ 0x62B ∷ 0x644 ∷ [], pass)
    ∷ (0x628 ∷ 0x6CC ∷ 0x627 ∷ 0x631 ∷ [], import)
    ∷ (0x628 ∷ 0x6CC ∷ 0x627 ∷ 0x641 ∷ 0x632 ∷ 0x627 ∷ [], append)
    ∷ (0x62D ∷ 0x630 ∷ 0x641 ∷ 0x6A9 ∷ 0x646 ∷ [], remove)
    ∷ (0x62D ∷ 0x630 ∷ 0x641 ∷ 0x200C ∷ 0x6A9 ∷ 0x646 ∷ [], remove)
    ∷ (0x628 ∷ 0x62F ∷ 0x647 ∷ [], raise)
    ∷ (0x62F ∷ 0x631 ∷ 0x633 ∷ 0x62A ∷ [], true_kw)
    ∷ (0x63A ∷ 0x644 ∷ 0x637 ∷ [], false_kw)
    ∷ (0x62A ∷ 0x647 ∷ 0x6CC ∷ [], none_kw)
    ∷ (0x62E ∷ 0x648 ∷ 0x62F ∷ [], self)
    ∷ (0x648 ∷ 0x627 ∷ 0x644 ∷ 0x62F ∷ [], super)
    ∷ (0x628 ∷ 0x627 ∷ 0x646 ∷ 0x627 ∷ 0x645 ∷ [], as_kw)
    ∷ (0x628 ∷ 0x627 ∷ [], with)
    ∷ (0x648 ∷ [], sep)
    ∷ (0x628 ∷ 0x647 ∷ [], beh)
    ∷ (0x647 ∷ 0x645 ∷ 0x686 ∷ 0x646 ∷ 0x6CC ∷ 0x646 ∷ [], and_kw)
    ∷ (0x6CC ∷ 0x627 ∷ [], or_kw)
    ∷ (0x628 ∷ 0x627 ∷ 0x634 ∷ 0x62F ∷ [], cop_pos)
    ∷ (0x646 ∷ 0x628 ∷ 0x627 ∷ 0x634 ∷ 0x62F ∷ [], cop_neg)
    ∷ (0x628 ∷ 0x67E ∷ 0x627 ∷ [], try)
    ∷ (0x62F ∷ 0x631 ∷ 0x646 ∷ 0x647 ∷ 0x627 ∷ 0x6CC ∷ 0x62A ∷ [], finally)
    ∷ (0x62A ∷ 0x623 ∷ 0x62E ∷ 0x6CC ∷ 0x631 ∷ 0x6CC ∷ [], defer)
    ∷ (0x628 ∷ 0x633 ∷ 0x627 ∷ 0x632 ∷ [], yield)
    ∷ (0x628 ∷ 0x633 ∷ 0x627 ∷ 0x632 ∷ 0x200C ∷ 0x627 ∷ 0x632 ∷ [], yieldfrom)
    ∷ (0x628 ∷ 0x633 ∷ 0x627 ∷ 0x632 ∷ 0x627 ∷ 0x632 ∷ [], yieldfrom)
    ∷ (0x67E ∷ 0x648 ∷ 0x634 ∷ 0x634 ∷ [], decor)
    ∷ (0x631 ∷ 0x647 ∷ 0x6CC ∷ [], implements)
    ∷ (0x648 ∷ 0x627 ∷ 0x631 ∷ 0x62B ∷ [], extends)
    ∷ (0x628 ∷ 0x631 ∷ 0x648 ∷ [], go)
    ∷ (0x6A9 ∷ 0x627 ∷ 0x646 ∷ 0x627 ∷ 0x644 ∷ [], channel)
    ∷ (0x628 ∷ 0x628 ∷ 0x646 ∷ 0x62F ∷ [], close)
    ∷ (0x628 ∷ 0x633 ∷ 0x62A ∷ 0x647 ∷ 0x200C ∷ 0x627 ∷ 0x633 ∷ 0x62A ∷ [], closed)
    ∷ (0x628 ∷ 0x633 ∷ 0x62A ∷ 0x647 ∷ 0x627 ∷ 0x633 ∷ 0x62A ∷ [], closed)
    ∷ (0x62C ∷ 0x647 ∷ 0x627 ∷ 0x646 ∷ 0x6CC ∷ [], global)
    ∷ (0x646 ∷ 0x627 ∷ 0x645 ∷ 0x62D ∷ 0x644 ∷ 0x6CC ∷ [], nonlocal)
    ∷ (0x6AF ∷ 0x648 ∷ 0x646 ∷ 0x647 ∷ [], class)
    ∷ (0x631 ∷ 0x627 ∷ 0x628 ∷ 0x637 ∷ [], interf)
    ∷ (0x62F ∷ 0x631 ∷ [], in_kw)
    ∷ (0x627 ∷ 0x633 ∷ 0x62A ∷ [], cop_pos)
    ∷ []
