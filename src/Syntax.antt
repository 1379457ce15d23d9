-- ===== src/Syntax.antt =====
-- internal/ast/ast.go: the syntax tree. A node has its line first. F is the type of a float64, which
-- the tree only stores. An expression that may be absent, a list of nodes and a list of clauses are
-- types of their own, as they hold expressions.
use kolang.Prelude.{ℕ, List, Bool, Text}
use kolang.Prelude.Int.{ℤ}

-- `IntVal` and `FVal` of a `NumberLit`, by its flag `Int`.
pub data Number (F : Type 0) : Type 0 where
  int_val : ℤ → Number F
  f_val : F → Number F

mutual
  pub data Expr (F : Type 0) : Type 0 where
    number_lit : ℕ → Number F → Expr F
    str_lit : ℕ → Text → Expr F
    bool_lit : ℕ → Bool → Expr F
    none_lit : ℕ → Expr F
    ident : ℕ → Text → Expr F
    unary : ℕ → Text → Expr F → Expr F
    binary_op : ℕ → Text → Expr F → Expr F → Expr F
    call : ℕ → Expr F → Exprs F → Kwargs F → Expr F
    index : ℕ → Expr F → Expr F → Expr F
    slice : ℕ → Expr F → OptExpr F → OptExpr F → OptExpr F → Expr F
    member_access : ℕ → Expr F → Expr F → Expr F
    method_call : ℕ → Expr F → Expr F → Exprs F → Expr F
    list_lit : ℕ → Exprs F → Expr F
    tuple_lit : ℕ → Exprs F → Expr F
    dict_lit : ℕ → Exprs F → Exprs F → Expr F
    set_lit : ℕ → Exprs F → Expr F
    pipe_expr : ℕ → Expr F → Expr F → Expr F
    ternary_expr : ℕ → Expr F → Expr F → Expr F → Expr F
    list_comp : ℕ → Expr F → Clauses F → Expr F
    dict_comp : ℕ → Expr F → Expr F → Clauses F → Expr F
    set_comp : ℕ → Expr F → Clauses F → Expr F
    gen_exp : ℕ → Expr F → Clauses F → Expr F
    channel_lit : ℕ → OptExpr F → OptExpr F → Expr F
    recv_expr : ℕ → Expr F → Expr F
    yield_expr : ℕ → Expr F → Expr F
    yield_from_expr : ℕ → Expr F → Expr F

  pub data OptExpr (F : Type 0) : Type 0 where
    absent : OptExpr F
    present : Expr F → OptExpr F

  pub data Exprs (F : Type 0) : Type 0 where
    no_exprs : Exprs F
    expr : Expr F → Exprs F → Exprs F

  -- `Kwarg`: the line, the name and the value.
  pub data Kwargs (F : Type 0) : Type 0 where
    no_kwargs : Kwargs F
    kwarg : ℕ → Text → Expr F → Kwargs F → Kwargs F

  -- `CompClause`: the line, the name, the iterable and the filter.
  pub data Clauses (F : Type 0) : Type 0 where
    no_clauses : Clauses F
    clause : ℕ → Text → Expr F → OptExpr F → Clauses F → Clauses F

-- `HasDefault` tells whether `Default` is there.
pub record Param (F : Type 0) : Type 0 where
  pub line : ℕ
  pub name : Text
  pub default : OptExpr F
  pub ann : Text
  pub variadic : Bool
  pub kwargs : Bool

pub record DecoratorStmt (F : Type 0) : Type 0 where
  pub line : ℕ
  pub name : Text
  pub args : Exprs F

-- `Block` has its line, and then its statements.
mutual
  pub data Stmt (F : Type 0) : Type 0 where
    expr_stmt : ℕ → Expr F → Stmt F
    go_stmt : ℕ → Expr F → Stmt F
    global_stmt : ℕ → List Text → Stmt F
    nonlocal_stmt : ℕ → List Text → Stmt F
    send_stmt : ℕ → Expr F → Expr F → Stmt F
    close_stmt : ℕ → Expr F → Stmt F
    assign : ℕ → Expr F → Expr F → Text → Stmt F
    multi_assign : ℕ → Exprs F → Exprs F → Stmt F
    compound_assign : ℕ → Text → Expr F → Expr F → Stmt F
    print_stmt : ℕ → Exprs F → Stmt F
    input_stmt : ℕ → Expr F → Stmt F
    return_stmt : ℕ → Exprs F → Stmt F
    if_stmt : ℕ → Expr F → Stmts F → Elifs F → OptBlock F → Stmt F
    while_stmt : ℕ → Expr F → Block F → Stmt F
    for_range : ℕ → Expr F → Expr F → Expr F → OptExpr F → Block F → Stmt F
    for_in : ℕ → Exprs F → Expr F → Block F → Stmt F
    def_stmt : Def F → Stmt F
    yield_stmt : ℕ → Expr F → Stmt F
    yield_from_stmt : ℕ → Expr F → Stmt F
    import_stmt : ℕ → Text → Stmt F
    from_import_stmt : ℕ → Text → Text → Text → Stmt F
    break_stmt : ℕ → Stmt F
    continue_stmt : ℕ → Stmt F
    append_stmt : ℕ → Expr F → Expr F → Stmt F
    remove_stmt : ℕ → Expr F → Expr F → Stmt F
    class_def : ℕ → Text → Text → Text → Stmts F → Stmt F
    try_stmt : ℕ → Block F → Handlers F → OptBlock F → Stmt F
    raise_stmt : ℕ → Expr F → Stmt F
    defer_stmt : ℕ → Expr F → Stmt F
    with_stmt : ℕ → Expr F → Text → Stmts F → Stmt F
    interface_def : ℕ → Text → Defs F → Stmt F

  pub data Block (F : Type 0) : Type 0 where
    block : ℕ → Stmts F → Block F

  pub data Stmts (F : Type 0) : Type 0 where
    no_stmts : Stmts F
    stmt : Stmt F → Stmts F → Stmts F

  pub data OptBlock (F : Type 0) : Type 0 where
    no_block : OptBlock F
    some_block : Block F → OptBlock F

  -- `ElifBranch`: the line, the condition and the body.
  pub data Elifs (F : Type 0) : Type 0 where
    no_elifs : Elifs F
    elif : ℕ → Expr F → Block F → Elifs F → Elifs F

  -- `ExceptHandler`: the line, the exception, the alias and the body.
  pub data Handlers (F : Type 0) : Type 0 where
    no_handlers : Handlers F
    handler : ℕ → OptExpr F → Text → Block F → Handlers F → Handlers F

  -- `DefStmt`: the line, the name, the parameters, the body, the decorators and the return type.
  pub data Def (F : Type 0) : Type 0 where
    def : ℕ → Text → List (Param F) → OptBlock F → List (DecoratorStmt F) → Text → Def F

  pub data Defs (F : Type 0) : Type 0 where
    no_defs : Defs F
    method : Def F → Defs F → Defs F

-- `Line` of an expression.
unfoldable pub line_of : {F : Type 0} → Expr F → ℕ
line_of (number_lit l _) = l
line_of (str_lit l _) = l
line_of (bool_lit l _) = l
line_of (none_lit l) = l
line_of (ident l _) = l
line_of (unary l _ _) = l
line_of (binary_op l _ _ _) = l
line_of (call l _ _ _) = l
line_of (index l _ _) = l
line_of (slice l _ _ _ _) = l
line_of (member_access l _ _) = l
line_of (method_call l _ _ _) = l
line_of (list_lit l _) = l
line_of (tuple_lit l _) = l
line_of (dict_lit l _ _) = l
line_of (set_lit l _) = l
line_of (pipe_expr l _ _) = l
line_of (ternary_expr l _ _ _) = l
line_of (list_comp l _ _) = l
line_of (dict_comp l _ _ _) = l
line_of (set_comp l _ _) = l
line_of (gen_exp l _ _) = l
line_of (channel_lit l _ _) = l
line_of (recv_expr l _) = l
line_of (yield_expr l _) = l
line_of (yield_from_expr l _) = l
