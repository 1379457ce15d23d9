-- ===== src/Token.antt =====
-- internal/token: the kinds of tokens and the token itself (token.go), and the semantic category
-- of a keyword (categories.go).
pub mod Keywords
pub mod Spelling
use kolang.Prelude.{ℕ, Option, none, some, Text}
use kolang.Prelude.Int.{ℤ}

-- The constants of type `Type`, in the source's order.
pub data TokenType : Type 0 where
  illegal eof newline indent dedent ident int float string assign plus minus star div floordiv :
      TokenType
  percent pow plus_eq minus_eq star_eq div_eq floordiv_eq pow_eq percent_eq equal less greater :
      TokenType
  less_equal greater_equal send recv arrow pipe ezafe lparen rparen lbracket rbracket lbrace :
      TokenType
  rbrace colon def return if_kw else_kw while for in_kw from_kw to_kw step_kw break continue :
      TokenType
  print input pass import append remove raise true_kw false_kw none_kw self super as_kw with :
      TokenType
  sep and_kw or_kw beh cop_pos cop_neg go channel close closed global nonlocal class interf try :
      TokenType
  finally defer yield yieldfrom decor implements extends : TokenType

pub record Token : Type 0 where
  pub type : TokenType
  pub literal : Text
  pub line : ℕ
  pub col : ℤ

-- The values of the map `Categories`.
pub data Category : Type 0 where
  control declaration copula logical scope concurrency verb literal self_super other : Category

-- The map `Categories`; `none` is a missing key.
unfoldable pub categories : TokenType → Option Category
categories if_kw = some control
categories else_kw = some control
categories while = some control
categories for = some control
categories from_kw = some control
categories to_kw = some control
categories step_kw = some control
categories in_kw = some control
categories try = some control
categories finally = some control
categories break = some control
categories continue = some control
categories def = some declaration
categories class = some declaration
categories interf = some declaration
categories extends = some declaration
categories implements = some declaration
categories decor = some declaration
categories cop_pos = some copula
categories cop_neg = some copula
categories and_kw = some logical
categories or_kw = some logical
categories global = some scope
categories nonlocal = some scope
categories go = some concurrency
categories channel = some concurrency
categories close = some concurrency
categories closed = some concurrency
categories print = some verb
categories return = some verb
categories append = some verb
categories remove = some verb
categories raise = some verb
categories import = some verb
categories input = some verb
categories yield = some verb
categories yieldfrom = some verb
categories defer = some verb
categories true_kw = some literal
categories false_kw = some literal
categories none_kw = some literal
categories self = some self_super
categories super = some self_super
categories as_kw = some other
categories with = some other
categories sep = some other
categories beh = some other
categories pass = some other
categories _ = none
