-- ===== src/Lib.antt =====
-- Kolang: a verification of the interpreter in internal/.
--
-- A text becomes tokens (internal/lexer, internal/token), the parser makes a syntax tree of them,
-- and internal/eval walks the tree: it keeps variables in scopes, control flow in Go errors,
-- deferred calls on a stack, classes in a chain of parents, and passes values between goroutines
-- over channels. The development has a module for each of these parts.
--
-- Prelude: numbers, texts as lists of code points, integers, tests.
-- Token: token.go and categories.go. Token/Keywords has the keyword table.
-- Lexer: lexer.go, one module for each group of methods: State (Lexer, advance, emit), Chars, Skip
--   (skipComment), Indent (handleLineStart, emitIndents), Words (lexIdentifier, lexString), Numbers
--   (lexNumber), Operators (lexOperator), Run (run, Lex). The text is read from its front, and the
--   indentation stack has its top first. Strconv is what the scanner uses of the package strconv:
--   integers are defined, floating point and quoting are a parameter. `lex` runs on one unit of fuel
--   more than the text has runes, as each round of the loop consumes one. Lexer/Nesting is about the
--   blocks.
-- Syntax: ast.go, as data types over a type for float64.
-- Parser: parser.go. A parsing function takes the tokens that are left, with the pending decorators,
--   and gives a value or an error and the state behind it (Parser/Core); compDepth, parenDepth and
--   condDepth are arguments. Operators has the table binops; Items the arguments, subscripts and
--   bracketed literals; Terms parseAtom, parseReceiver, parsePostfix; Expressions parsePrefix and
--   parseBinary; Signatures, Simple, Blocks, Compound and Program the statements. What a group of
--   functions calls of a later one is an argument of it, `again` for parseBinary and `item` for
--   parseStatement. Each loop and each recursion has as much fuel as tokens are left, and one unit
--   more: Parser/Progress shows for each function that this is enough. Parser/Outcome is about the
--   whole, and Parser/RoundTrip about operator expressions over names, written with as few
--   parentheses as their levels allow.
-- Env: Env of eval.go. Scopes live in a store and refer to each other by place (Env/Store); a
--   parent is older than its child, so the place bounds the walk (Env/Chain). Env/Binding is about
--   assignment.
-- Int64: int64 with its wrap-around; Int64/Power has mulOverflows and intPow of eval_expr.go, on
--   64 units of fuel, as a round halves the exponent.
-- Control: eval.go, eval_control.go, eval_exceptions.go, callFunction of eval_expr.go. A statement
--   stands for what it does to a World (Control/World); evalBlock, evalIf and toBool are in Blocks,
--   the loops in Loops, evalTryStmt, matchesException and evalWithStmt in Try, the deferred calls
--   and callFunction in Calls, bindParams in Params, the top level of a program and of the REPL in
--   Program. The expressions and the blocks inside a statement are
--   arguments of the definitions. Loops take fuel, one unit for each test of their condition.
-- Classes: Class of eval_oop.go in a table, lookupMethod, hasMethod, instanceOf, isExceptionClass,
--   satisfiesInterface. Classes/Define has evalClassDef up to the body of the class, with the lookup
--   of the parent, and installExceptions.
-- Slices: evalSlice of eval_members.go, with sliceBounds and clampSliceIdx. An index out of range is
--   a panic of its own, and the fuel is one unit more than the length.
-- Indexing: evalIndex of eval_members.go and setIndex of eval_assign.go, of a list.
-- Values: the values of eval.go as an operator reads them, with equal, Stringify and the sets of
--   eval_helpers.go: a list by its elements, an object by its identity. Values/Equality has equal,
--   Values/Printed has Stringify and the sets, Values/Keys and Values/Symmetry are about maps and
--   equality.
-- Operators: arith and compare of eval_helpers.go, applyBinop and inOperator of eval_expr.go. A
--   result is a value, an exception class with a line, an error of the interpreter, or a panic.
--   Operators/Kinds has the types of the operands and of the results, Operators/Overflow is
--   about the power.
-- Expressions: evalExpr of eval_expr.go over the whole tree (Expressions/Evaluate), its cases with
--   operands (Expressions/Nodes), eval_comp.go, and eval_decorators.go (Expressions/Decorators). What
--   it calls of the interpreter is the record Machine (Expressions/Interface);
--   Expressions/Connected fills in the operators, the printing and the scopes. Expressions/Typing has
--   the rules by which an expression has a type, Expressions/Comprehension is about compRec.
--   Expressions/Targets has assign of eval_assign.go, and Expressions/Literals joins evalExpr with the
--   literals of texts and with the methods.
-- Interpolation: eval_strings.go. The main loop skips behind a placeholder by a number of
--   characters, and so needs no fuel.
-- Annotations: eval_types.go, on one unit of fuel more than the annotation has characters, as a level
--   of parentheses stands for two of them; Annotations/Enough is about the fuel.
-- Methods: the frames, superMarker and instantiate of eval_oop.go, evalMethodCall of eval_members.go
--   and evalPipeMethodCall of eval_comp.go. What they ask of objects is the record Objects.
-- Channels: eval_concurrency.go, as the steps of any number of goroutines on one channel.
-- Generators: eval_generators.go, as the steps of a generator's goroutine and of its only consumer,
--   which calls close between its calls of next. The body is a parameter. Generators/Detect has
--   containsYield.
-- Tests: each property at a concrete input, and runs.
--
-- Not modelled: the Persian texts of the errors of the parser and of the operators, getAttr and
-- setAttr, the dispatch of statements, yieldFrom, builtins and modules,
-- the linter, which only passes names on, and the commands, which read and write. Floating point is
-- a parameter.
-- A scope's mutex and the WaitGroup are left out: the steps they serialise stand one by one.
pub mod Prelude
pub mod Token
pub mod Lexer
pub mod Syntax
pub mod Parser
pub mod Env
pub mod Int64
pub mod Control
pub mod Classes
pub mod Slices
pub mod Channels
pub mod Generators
pub mod Indexing
pub mod Values
pub mod Operators
pub mod Expressions
pub mod Interpolation
pub mod Annotations
pub mod Methods
pub mod Tests
